-- ===== src/Decode/Abi.antt =====
-- What internal/decode uses of go-ethereum's accounts/abi and common, of encoding/json and of the
-- file system. `P` is a parsed ABI, `V` a map of arguments by name. Addresses and hashes stand as
-- the texts of their `Hex` methods.
use blockchain_data_feeds_po.Prelude.{Bool, Text, Option, List}
use blockchain_data_feeds_po.Prelude.Exec.{Error, Result}

-- `abi.Argument`: what the program reads of it, and its type as text.
pub record Argument : Type 0 where
  pub name : Text
  pub indexed : Bool
  pub type_name : Text

pub record AbiEvent : Type 0 where
  pub name : Text
  pub id : Text
  pub inputs : List Argument

pub record Method : Type 0 where
  pub name : Text
  pub inputs : List Argument

-- `unpack` and `parse_topics` add to a map of arguments.
pub record Abi (P V : Type 0) : Type 0 where
  pub read_file : Text → Result Error Text
  pub parse : Text → Result Error P
  pub event : P → Text → Option AbiEvent
  pub method_by_id : P → Text → Result Error Method
  pub no_args : V
  pub unpack : List Argument → Text → V → Result Error V
  pub parse_topics : List Argument → List Text → V → Result Error V
  pub marshal : V → Result Error Text
  pub hex_to_address : Text → Text
