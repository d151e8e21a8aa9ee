-- ===== src/Config/Load.antt =====
-- `Load` of internal/config/config.go. The file system and yaml.v3 are parameters.
use blockchain_data_feeds_po.Prelude.{◌≡◌, Text, lit, [], arith, inl, inr}
use blockchain_data_feeds_po.Prelude.Exec.{Error, wrap, Result, ok, err, Exec, Result-cases}
use blockchain_data_feeds_po.Config.{Config, validate}
use blockchain_data_feeds_po.Config.Ready.{IsReady, validate-IsReady}

-- The text of a configuration.
unfoldable pub parsed : (Text → Result Error Config) → Text → Result Error Config
parsed unmarshal b = elim (unmarshal b) [
  | err e ↦ err (wrap (lit "parse yaml") [] e)
  | ok c ↦ validate c
]

module _ {F : Type 0} (read : Text → Exec F Error Text)
    (unmarshal : Text → Result Error Config) where
  unfoldable pub load : Text → Exec F Error Config
  load path f =
      let (r, f') = read path f in
      elim r [ err e ↦ (err (wrap (lit "read config") [] e), f') | ok b ↦ (parsed unmarshal b, f') ]

  pub load-IsReady : (path : Text) (f : F) (cfg : Config) → (load path f).0 ≡ ok cfg → IsReady cfg
  unfolding load parsed
  load-IsReady path f cfg h = elim (Result-cases (read path f).0) [
    | inr (x, e) ↦ absurd (ground (arith, e, h))
    | inl (b, e) ↦ elim (Result-cases (unmarshal b)) [
      | inr (x, g) ↦ absurd (ground (arith, e, g, h))
      | inl (c, g) ↦ validate-IsReady c cfg (ground (arith, e, g, h))
    ]
  ]
