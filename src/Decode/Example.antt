-- ===== src/Decode/Example.antt =====
-- An ABI with one event and one method, for the runs of internal/decode.
use blockchain_data_feeds_po.Prelude.{Text, lit, [], ◌∷◌, some, true, false}
use blockchain_data_feeds_po.Prelude.Exec.{ok}
use blockchain_data_feeds_po.Decode.Abi.{AbiEvent, Abi}
use blockchain_data_feeds_po.Decode.Registry.{ContractSpec}

abbrev pub transfer : AbiEvent
transfer = record {
  name = lit "Transfer";
  id = lit "0xT";
  inputs =
      record { name = lit "from"; indexed = true; type_name = lit "address" }
      ∷ record { name = lit "value"; indexed = false; type_name = lit "uint256" }
      ∷ [];
}

abbrev pub abi : Abi (Unit {0}) Text
abi = record {
  read_file = λ path. ok path;
  parse = λ b. ok tt;
  event = λ p name. some transfer;
  method_by_id = λ p id. ok (record { name = lit "pay"; inputs = [] });
  no_args = [];
  unpack = λ args bytes v. ok bytes;
  parse_topics = λ args topics v. ok v;
  marshal = λ v. ok v;
  hex_to_address = λ a. a;
}

abbrev pub token : ContractSpec
token = record {
  name = lit "Token";
  address = lit "0xA";
  abi_path = lit "token.json";
  events = lit "Transfer" ∷ [];
}
