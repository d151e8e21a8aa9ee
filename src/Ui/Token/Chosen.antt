-- ===== src/Ui/Token/Chosen.antt =====
-- Which contract updateConfigTokenAddress of cmd/ui/main.go changes.
use blockchain_data_feeds_po.Prelude.{
  List-cases, ℕ, suc, ◌+◌, ◌≡◌, ◌⊎◌, refl, ap, ◌∙◌, true, false, Text, none, some, List, [], ◌∷◌,
  ◌++◌, length, All, arith, inl, inr, Bool-cases, ◌||◌, lit,
}
use blockchain_data_feeds_po.Prelude.Exec.{ok}
use blockchain_data_feeds_po.Config.{Config, ContractConfig}
use blockchain_data_feeds_po.Ui.Token.{
  equal_fold, is_token, token_from, or_first, set_address, with_token,
}

abbrev pub IsOther : ContractConfig → Type 0
IsOther c = (equal_fold c.name (lit "LocalERC20") || equal_fold c.name (lit "TestToken")) ≡ false

-- The first token of a list, with the contracts before and behind it.
abbrev pub FirstToken :
    List ContractConfig → List ContractConfig → ContractConfig → List ContractConfig → Type 0
FirstToken cs before c after =
    (cs ≡ before ++ c ∷ after)
    × ((equal_fold c.name (lit "LocalERC20") || equal_fold c.name (lit "TestToken")) ≡ true)
    × All IsOther before

token_from-FirstToken :
    (i : ℕ) (cs : List ContractConfig)
    → ((before : List ContractConfig) × (c : ContractConfig) × (after : List ContractConfig)
        × FirstToken cs before c after
        × (token_from i cs ≡ some (i + length before)))
      ⊎ (All IsOther cs × (token_from i cs ≡ none))
unfolding token_from
token_from-FirstToken i [] = inr (tt, refl)
token_from-FirstToken i (c ∷ cs) = elim (Bool-cases (is_token c)) [
  | inl yes_token ↦ inl ([], c, cs, (refl, yes_token, tt), rw yes_token (ap some (omega arith)))
  | inr other ↦ elim (token_from-FirstToken (suc i) cs) [
    | inl (before, d, after, (e, t, a), f) ↦ inl (
      c ∷ before,
      d,
      after,
      (ap (λ (xs : List ContractConfig). c ∷ xs) e, t, (other, a)),
      rw other (f ∙ ap some (omega arith)),
    )
    | inr (a, f) ↦ inr ((other, a), rw other f)
  ]
]

set_address-append :
    (address : Text) (before after : List ContractConfig) (c : ContractConfig)
    → set_address (length before) address (before ++ c ∷ after)
      ≡ before ++ record c { address = address } ∷ after
unfolding set_address
set_address-append address [] after c = refl
set_address-append address (b ∷ before) after c =
    ap (λ (xs : List ContractConfig). b ∷ xs) (set_address-append address before after c)

with_token_shape :
    (address : Text) (cfg changed : Config)
    → with_token address cfg ≡ ok changed
    → (k : ContractConfig) × (ks : List ContractConfig) × (cfg.contracts ≡ k ∷ ks)
      × (changed ≡ record cfg {
        contracts = set_address (or_first (token_from 0 cfg.contracts)) address cfg.contracts;
      })
unfolding with_token
with_token_shape address cfg changed h = elim (List-cases cfg.contracts) [
  | inl e ↦ absurd (ground (arith, e, h))
  | inr (k, ks, e) ↦ (k, ks, e, ground (arith, e, h))
]

-- An update that returns a configuration has changed the address of one contract and nothing else:
-- that of the first contract called LocalERC20 or TestToken, letter case aside; or, if there is no
-- such contract, that of the first contract of all.
pub with_token_lem :
    (address : Text) (cfg changed : Config)
    → with_token address cfg ≡ ok changed
    → (before : List ContractConfig) × (c : ContractConfig) × (after : List ContractConfig)
      × (cfg.contracts ≡ before ++ c ∷ after)
      × (changed ≡ record cfg { contracts = before ++ record c { address = address } ∷ after })
      × ((FirstToken cfg.contracts before c after) ⊎ ((before ≡ []) × All IsOther cfg.contracts))
unfolding set_address
with_token_lem address cfg changed h =
    let (k, ks, e, shape) = with_token_shape address cfg changed h in
    elim (token_from-FirstToken 0 cfg.contracts) [
      | inl (before, c, after, first, g) ↦
          let same : 0 + length before ≡ length before = omega arith in
          let f = g ∙ ap some same in
          (
            before,
            c,
            after,
            first.0,
            shape
                ∙ ap (λ (cs : List ContractConfig). record cfg { contracts = cs })
                    (ap (λ i. set_address (or_first i) address cfg.contracts) f
                      ∙ ap (set_address (length before) address) first.0
                      ∙ set_address-append address before after c),
            inl first,
          )
      | inr (others, f) ↦ (
        [],
        k,
        ks,
        e,
        shape
            ∙ ap (λ (cs : List ContractConfig). record cfg { contracts = cs })
                (ap (λ i. set_address (or_first i) address cfg.contracts) f
                  ∙ ap (set_address 0 address) e),
        inr (refl, others),
      )
    ]
