-- ===== src/Ui/Token/Tests.antt =====
-- The handlers of the token of cmd/ui/main.go, on a configuration that has no token.
use blockchain_data_feeds_po.Prelude.{
  if◌then◌else◌, ◌≡◌, ◌⊎◌, refl, lit, List, [], ◌∷◌, ◌++◌, All, text_eq, to_lower, true, Bool,
  false,
}
use blockchain_data_feeds_po.Prelude.Exec.{err, failed, ok}
use blockchain_data_feeds_po.Config.{Config, ContractConfig}
use blockchain_data_feeds_po.Config.Example.{given}
use blockchain_data_feeds_po.Ui.Token.{
  with_token, set_address, token_from, trim_space, trim_left, Files, handle_token_latest,
  json_value, refused,
}
use blockchain_data_feeds_po.Ui.Token.Chosen.{FirstToken, IsOther, with_token_lem}

trimmed : trim_space (lit " 0xd ") ≡ lit "0xd"
unfolding trim_space trim_left
trimmed = refl

abbrev changed : Config
changed = record given {
  contracts =
      record { name = lit "T"; address = lit "0xd"; abi_path = lit "t.json"; events = lit "E" ∷ [] }
      ∷ [];
}

-- The only contract is no token, and its address is replaced.
replaces_other : with_token (lit "0xd") given ≡ ok changed
unfolding with_token token_from set_address text_eq to_lower
replaces_other = refl

-- The one file of the token; the state says whether it can be read.
abbrev token_file : Files Bool
token_file = record {
  stat = λ path readable.
      if text_eq path (lit "/app/data/token.json")
      then (ok tt, readable)
      else (err (failed (lit "no such file")), readable);
  read = λ path readable.
      if readable then (ok (lit "{}"), readable) else (err (failed (lit "denied")), readable);
  write = λ path b readable. (ok tt, readable);
  unmarshal = λ b. ok given;
  marshal = λ cfg. ok [];
}

serves_file : handle_token_latest token_file true ≡ (json_value (lit "{}"), true)
unfolding handle_token_latest text_eq
serves_file = refl

unreadable : handle_token_latest token_file false ≡ (refused (failed (lit "denied")), false)
unfolding handle_token_latest text_eq
unreadable = refl

with_token_lem_example :
    (before : List ContractConfig) × (c : ContractConfig) × (after : List ContractConfig)
    × (given.contracts ≡ before ++ c ∷ after)
    × (changed ≡ record given { contracts = before ++ record c { address = lit "0xd" } ∷ after })
    × (FirstToken given.contracts before c after ⊎ ((before ≡ []) × All IsOther given.contracts))
with_token_lem_example = with_token_lem (lit "0xd") given changed replaces_other
