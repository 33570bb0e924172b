-- ===== src/Invite/Binary.antt =====
-- The compact binary of an invite: where its fields stand.
use construct_protos.Prelude.{
  ℕ, ◌+◌, ◌*◌, ◌<◌, ◌^◌, ◌≡◌, ◌∙◌, refl, sym, ap, List, [], ◌∷◌, ◌++◌, ◌==◌, take, drop, slice,
  length, arith, take_prefix, drop_prefix, drop-drop, Bool-cases, inl, inr, ==_iff,
}
use construct_protos.Prelude.Result.{ok, bind_ok, ok_injective, err_ne_ok}
use construct_protos.Bytes.{Bytes, be, of_be, codes}
use construct_protos.Bytes.Struct.{length-be, of_be-be, pack_be_fits, bytes_of_fits}
use construct_protos.Bytes.Hex.{digit_value, fromhex}
use construct_protos.Proto.{utf8}
use construct_protos.Invite.{
  magic, Fields, un_of, pairs, without_dashes, uuid_of, digit_of, flag_of, un_part, binary,
}

-- What a field that stands at the front of the rest says, and what stands behind it.
drop_field :
    (a b : ℕ) (x r out : Bytes)
    → drop a out ≡ x ++ r
    → length x ≡ b
    → (take b (drop a out) ≡ x) × (drop (a + b) out ≡ r)
drop_field a b x r out e h = (
  ap (take b) e ∙ take_prefix b x r h,
  sym (drop-drop a b out) ∙ ap (drop b) e ∙ drop_prefix b x r h,
)

length-pairs : (cs : List ℕ) {bs : Bytes} → pairs cs ≡ ok bs → length cs ≡ 2 * length bs
unfolding pairs
length-pairs [] e = ap (λ bs. 2 * length bs) (ok_injective e)
length-pairs (c ∷ []) e = absurd (err_ne_ok e)
length-pairs (c ∷ d ∷ cs) e =
    let (h, x, e₁) = bind_ok (digit_of (digit_value c)) _ e in
    let (l, y, e₂) = bind_ok (digit_of (digit_value d)) _ e₁ in
    let (bs, z, e₃) = bind_ok (pairs cs) _ e₂ in
    omega (arith, length-pairs cs z, ap (length {A = ℕ}) (ok_injective e₃))

-- A UUID has 16 bytes.
pub length-uuid_of : (t : List ℕ) {bs : Bytes} → uuid_of t ≡ ok bs → length bs ≡ 16
unfolding uuid_of
length-uuid_of t e = elim (Bool-cases (length (without_dashes t) == 32)) [
  | inl k ↦ omega (
    arith,
    length-pairs (without_dashes t) (rw k at e),
    (==_iff (length (without_dashes t)) 32).0 k,
  )
  | inr k ↦ absurd (err_ne_ok (rw k at e))
]

-- The username behind its length, if there is one.
abbrev pub named : Bytes → Bytes
named [] = []
named (b ∷ bs) = length (b ∷ bs) ∷ b ∷ bs

un_part_named : (un : Bytes) → length un < 256 → un_part un ≡ ok (named un)
un_part_named [] h = refl
un_part_named (b ∷ bs) h = rw (bytes_of_fits (length (b ∷ bs) ∷ []) (h, tt)) refl

flag_of-lt : (un : Bytes) → flag_of un < 256
flag_of-lt [] = omega arith
flag_of-lt (b ∷ bs) = omega arith

-- The flag of an invite: 1 if there is a username in it.
abbrev pub username_flag : Bytes → ℕ
username_flag [] = 0
username_flag (b ∷ bs) = 1

flag_of_lem : (un : Bytes) → flag_of un ≡ username_flag un
flag_of_lem [] = refl
flag_of_lem (b ∷ bs) = refl

-- The values that a binary is made of.
pub record Written (f : Fields) (sig jti uuid device addr : Bytes) : Type 0 where
  pub version : f.v < 256
  pub jti_read : uuid_of f.jti ≡ ok jti
  pub uuid_read : uuid_of f.uuid ≡ ok uuid
  pub device_read : fromhex f.device_id ≡ ok device
  pub device_size : length device ≡ 16
  pub time : f.ts < 256 ^ 8
  pub signature_size : length sig ≡ 64
  pub server : length (utf8 f.server) < 256
  pub username : length (utf8 (un_of f.un)) < 256
  pub lifetime : f.ttl < 256 ^ 4
  pub addr_read : fromhex f.addr ≡ ok addr
  pub addr_size : length addr ≡ 32

abbrev out_of : Fields → Bytes → Bytes → Bytes → Bytes → Bytes → Bytes
out_of f sig jti uuid device addr =
    let un = utf8 (un_of f.un) in
    magic
    ++ ((flag_of un ∷ f.v ∷ [])
        ++ (jti
            ++ (uuid
                ++ (device
                    ++ (be 8 f.ts
                        ++ (sig
                            ++ ((length (utf8 f.server) ∷ [])
                                ++ (utf8 f.server ++ (named un ++ (be 4 f.ttl ++ addr))))))))))

module _ (f : Fields) (sig jti uuid device addr : Bytes)
    (w : Written f sig jti uuid device addr) where
  binary-out_of : binary f sig ≡ ok (out_of f sig jti uuid device addr)
  unfolding binary
  binary-out_of =
      let un = utf8 (un_of f.un) in
      rw
        (
          bytes_of_fits (flag_of un ∷ f.v ∷ []) (flag_of-lt un, (w.version, tt)),
          w.jti_read,
          w.uuid_read,
          w.device_read,
          pack_be_fits 8 f.ts w.time,
          bytes_of_fits (length (utf8 f.server) ∷ []) (w.server, tt),
          un_part_named un w.username,
          pack_be_fits 4 f.ttl w.lifetime,
          w.addr_read,
        )
        refl

  -- An invite of these values is written. Each field can be read off the binary: the mark, the flag of a
  -- username and the version, the two identifiers, the device id, the time, the signature, the server behind its
  -- length, and then the username behind its length, if there is one, the lifetime and the address.
  pub binary_reads :
      (out : Bytes) × (binary f sig ≡ ok out)
      × (take 6 out ≡ codes "CIv1" ++ (username_flag (utf8 (un_of f.un)) ∷ f.v ∷ []))
      × (slice 6 22 out ≡ jti)
      × (slice 22 38 out ≡ uuid)
      × (slice 38 54 out ≡ device)
      × (of_be (slice 54 62 out) ≡ f.ts)
      × (slice 62 126 out ≡ sig)
      × (slice 126 127 out ≡ length (utf8 f.server) ∷ [])
      × (slice 127 (127 + length (utf8 f.server)) out ≡ utf8 f.server)
      × (drop (127 + length (utf8 f.server)) out
          ≡ named (utf8 (un_of f.un)) ++ (be 4 f.ttl ++ addr))
  binary_reads =
      let un = utf8 (un_of f.un) in
      let server = utf8 f.server in
      let end : Bytes = named un ++ (be 4 f.ttl ++ addr) in
      let out = out_of f sig jti uuid device addr in
      let (a, r₁) = drop_field 6 16 jti _ out refl (length-uuid_of f.jti w.jti_read) in
      let (b, r₂) = drop_field 22 16 uuid _ out r₁ (length-uuid_of f.uuid w.uuid_read) in
      let (c, r₃) = drop_field 38 16 device _ out r₂ w.device_size in
      let (d, r₄) = drop_field 54 8 (be 8 f.ts) _ out r₃ (length-be 8 f.ts) in
      let (e, r₅) = drop_field 62 64 sig _ out r₄ w.signature_size in
      let (g, r₆) = drop_field 126 1 (length server ∷ []) _ out r₅ refl in
      let (h, r₇) = drop_field 127 (length server) server end out r₆ refl in
      (
        out,
        binary-out_of,
        ap (λ n. magic ++ (n ∷ f.v ∷ [])) (flag_of_lem un),
        a,
        b,
        c,
        ap of_be d ∙ of_be-be 8 f.ts w.time,
        e,
        g,
        ap (λ k. take k (drop 127 out)) (omega arith) ∙ h,
        r₇,
      )
