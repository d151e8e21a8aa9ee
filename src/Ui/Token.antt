-- ===== src/Ui/Token.antt =====
-- updateConfigTokenAddress of cmd/ui/main.go, and the handlers around it. `strings.EqualFold` is
-- taken on ASCII text.
pub mod Chosen
mod Tests
use blockchain_data_feeds_po.Prelude.{
  reverse, ◌&&◌, ◌==◌, leb, ℕ, zero, suc, Bool, ◌||◌, not, Text, lit, is_empty, text_eq, to_lower,
  Option, none, some, List, [], ◌∷◌, if◌then◌else◌,
}
use blockchain_data_feeds_po.Prelude.Exec.{Error, failed, Result, ok, err, Exec, pure, raise, ◌>>=◌}
use blockchain_data_feeds_po.Config.{Config, ContractConfig}
use blockchain_data_feeds_po.Ui.Send.{Response, json_value, refused, not_allowed}

-- `strings.TrimSpace` on ASCII text.
abbrev is_space : ℕ → Bool
is_space c = c == 32 || (leb 9 c && leb c 13)

unfoldable pub trim_left : Text → Text
trim_left [] = []
trim_left (c ∷ s) = let rest = trim_left s in if is_space c then rest else c ∷ s

unfoldable pub trim_space : Text → Text
trim_space s = reverse (trim_left (reverse (trim_left s)))

-- The file system and yaml.v3, over the state `F` of the files.
pub record Files (F : Type 0) : Type 0 where
  pub stat : Text → Exec F Error (Unit {0})
  pub read : Text → Exec F Error Text
  pub write : Text → Text → Exec F Error (Unit {0})
  pub unmarshal : Text → Result Error Config
  pub marshal : Config → Result Error Text

abbrev pub equal_fold : Text → Text → Bool
equal_fold a b = text_eq (to_lower a) (to_lower b)

abbrev pub is_token : ContractConfig → Bool
is_token c = equal_fold c.name (lit "LocalERC20") || equal_fold c.name (lit "TestToken")

-- The index of the loop: that of the first token, or zero.
unfoldable pub token_from : ℕ → List ContractConfig → Option ℕ
token_from i [] = none
token_from i (c ∷ cs) = if is_token c then some i else token_from (suc i) cs

abbrev pub or_first : Option ℕ → ℕ
or_first none = 0
or_first (some i) = i

-- `cfg.Contracts[idx].Address = address`
unfoldable pub set_address : ℕ → Text → List ContractConfig → List ContractConfig
set_address i address [] = []
set_address zero address (c ∷ cs) = record c { address = address } ∷ cs
set_address (suc i) address (c ∷ cs) = c ∷ set_address i address cs

unfoldable pub with_token : Text → Config → Result Error Config
with_token address cfg = elim cfg.contracts [
  | [] ↦ err (failed (lit "no contracts in config"))
  | c ∷ cs ↦ ok (record cfg {
    contracts = set_address (or_first (token_from 0 cfg.contracts)) address cfg.contracts;
  })
]

module _ {F : Type 0} (files : Files F) where
  abbrev lift : {A : Type 0} → Result Error A → Exec F Error A
  lift r s = (r, s)

  unfoldable pub update_config_token_address : Text → Text → Exec F Error (Unit {0})
  update_config_token_address given address = do
    let path = if is_empty given then lit "configs/config.sample.yaml" else given
    b ← files.read path
    cfg ← lift (files.unmarshal b)
    changed ← lift (with_token address cfg)
    out ← lift (files.marshal changed)
    files.write path out

  -- handleTokenApply: the method, and the address of the body as it is decoded.
  unfoldable pub handle_token_apply : Text → Text → Result Error Text → F → Response Text × F
  handle_token_apply config_path method body s =
      if not (text_eq method (lit "POST")) then (not_allowed, s) else elim body [
        | err e ↦ (refused e, s)
        | ok given ↦
            let addr = trim_space given in
            if is_empty addr
            then (refused (failed (lit "address is required")), s)
            else (let (r, s') = update_config_token_address config_path addr s in
                elim r [ ok u ↦ (json_value (lit "ok"), s') | err e ↦ (refused e, s') ])
      ]

  -- handleTokenLatest: the file as it is.
  unfoldable pub handle_token_latest : F → Response Text × F
  handle_token_latest s =
      let path = lit "/app/data/token.json" in
      let (found, s1) = files.stat path s in
      elim found [
        | err e ↦ (refused (failed (lit "token.json not found")), s1)
        | ok u ↦
            (let (r, s2) = files.read path s1 in
              elim r [ err e ↦ (refused e, s2) | ok b ↦ (json_value b, s2) ])
      ]
