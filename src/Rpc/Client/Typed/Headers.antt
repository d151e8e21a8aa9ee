-- ===== src/Rpc/Client/Typed/Headers.antt =====
-- What the typed calls of internal/rpc/client.go give.
use blockchain_data_feeds_po.Prelude.{
  ℕ, ◌≡◌, false, Text, lit, List, [], ◌∷◌, arith, inl, inr, is_empty, Bool-cases, subst,
}
use blockchain_data_feeds_po.Prelude.Exec.{Error, Result, ok, Result-cases}
use blockchain_data_feeds_po.Rpc.Interface.{BlockHeader, Hexutil}
use blockchain_data_feeds_po.Rpc.Client.{
  text, flag, BlockResponse, Json, Transport, Client, Conn, call, RpcResponse, Param,
}
use blockchain_data_feeds_po.Rpc.Client.Answers.{call-Explained, Explained, Responded, request}
use blockchain_data_feeds_po.Rpc.Client.Typed.{unix_time, to_header, get_block_by_number}

module _ {C R : Type 0} (t : Transport C) (json : Json) (hex : Hexutil) (client : Client R) where
  -- A call that went well had its result in a response of the server.
  pub call_ok :
      {A : Type 0} (method : Text) (params : List Param) (decode : Text → Result Error A)
      (c : Conn C) (a : A)
      → (call t json client method params decode c).0 ≡ ok a
      → (resp : RpcResponse) × Responded t json client (request method params) resp
        × (decode resp.result ≡ ok a)
  call_ok method params decode c a h =
      let (resp, r, clean, e) =
        subst (Explained t json client (request method params) decode) h
          (call-Explained t json client decode method params c) in
      (resp, r, e)

  to_header_lem :
      (b : BlockResponse) (header : BlockHeader)
      → to_header hex b ≡ ok header
      → (is_empty b.number ≡ false)
        × (hex.decode_uint64 b.number ≡ ok header.number)
        × (header.hash ≡ b.hash)
        × ((ts : ℕ) × (hex.decode_uint64 b.timestamp ≡ ok ts) × (header.timestamp ≡ unix_time ts))
  unfolding to_header
  to_header_lem b header h = elim (Bool-cases (is_empty b.number)) [
    | inl missing ↦ absurd (ground (arith, missing, h))
    | inr there ↦ elim (Result-cases (hex.decode_uint64 b.number)) [
      | inl (num, e) ↦ elim (Result-cases (hex.decode_uint64 b.timestamp)) [
        | inl (ts, f) ↦ (
          there,
          ground (arith, there, e, f, h),
          ground (arith, there, e, f, h),
          (ts, f, ground (arith, there, e, f, h)),
        )
        | inr (x, f) ↦ absurd (ground (arith, there, e, f, h))
      ]
      | inr (x, e) ↦ absurd (ground (arith, there, e, h))
    ]
  ]

  -- A header that the client returns for a block is a block that the server returned on the
  -- request for its number: it has a number, which
  -- is the header's, and the header's hash and timestamp.
  pub get_block_by_number_lem :
      (number : ℕ) (c : Conn C) (header : BlockHeader)
      → (get_block_by_number t json hex client number c).0 ≡ ok header
      → (resp : RpcResponse) × Responded t json client
          (request (lit "eth_getBlockByNumber") (text (hex.encode_uint64 number) ∷ flag false ∷ []))
          resp
        × ((b : BlockResponse) × (json.block resp.result ≡ ok b)
            × (is_empty b.number ≡ false)
            × (hex.decode_uint64 b.number ≡ ok header.number)
            × (header.hash ≡ b.hash)
            × ((ts : ℕ) × (hex.decode_uint64 b.timestamp ≡ ok ts)
                × (header.timestamp ≡ unix_time ts)))
  unfolding get_block_by_number
  get_block_by_number_lem number c header h =
      let params : List Param = text (hex.encode_uint64 number) ∷ flag false ∷ [] in
      let out = call t json client (lit "eth_getBlockByNumber") params json.block c in
      elim (Result-cases out.0) [
        | inl (b, e) ↦
            let (resp, r, f) = call_ok (lit "eth_getBlockByNumber") params json.block c b e in
            let (there, num, same, time) = to_header_lem b header (ground (arith, e, h)) in
            (resp, r, (b, f, there, num, same, time))
        | inr (x, e) ↦ absurd (ground (arith, e, h))
      ]
