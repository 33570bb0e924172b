-- ===== src/Proto/Payload.antt =====
-- How long the encoded fields can get, and that they are bytes.
use construct_protos.Prelude.{
  ℕ, zero, suc, ◌+◌, ◌*◌, ◌≤◌, ◌<◌, ◌≡◌, List, [], ◌∷◌, ◌++◌, Bool, true, false, ◌&&◌, ltb, All,
  arith, concat, length, length-append, and_inv, ltb→lt,
}
use construct_protos.Bytes.{Bytes, IsByte}
use construct_protos.Bytes.Made.{AreBytes, ◌&◌}
use construct_protos.Proto.{varint, key, p_bytes, p_string, p_varint, utf8, utf8_char}
use construct_protos.Proto.Varint.{varint_shape}

-- Bytes, `n` of them at most.
pub record IsPayload (n : ℕ) (b : Bytes) : Type 0 where
  pub bytes : AreBytes b
  pub short : length b ≤ n

-- The code points of a text.
abbrev pub IsText : List ℕ → Type 0
IsText s = All (λ c. c < 0x11_0000) s

pub nothing-IsPayload : IsPayload 0 []
nothing-IsPayload = record { bytes = record { all = tt }; short = omega arith }

pub append-IsPayload :
    {m n : ℕ} {a b : Bytes} → IsPayload m a → IsPayload n b → IsPayload (m + n) (a ++ b)
append-IsPayload {m} {n} {a} {b} h k =
    let l = length-append a b in
    record { bytes = h.bytes & k.bytes; short = omega (arith, l, h.short, k.short) }

pub weaker : {m : ℕ} (n : ℕ) {b : Bytes} → m ≤ n → IsPayload m b → IsPayload n b
weaker n le h = record { bytes = h.bytes; short = omega (arith, le, h.short) }

varint-IsPayload : (n : ℕ) → IsPayload 10 (varint n)
varint-IsPayload n =
    let (bytes, some', few) = varint_shape n in
    record { bytes = record { all = bytes }; short = few }

key-IsPayload : (f w : ℕ) → IsPayload 10 (key f w)
unfolding key
key-IsPayload f w = varint-IsPayload _

pub p_bytes-IsPayload :
    (f : ℕ) {n : ℕ} {b : Bytes} → IsPayload n b → IsPayload (20 + n) (p_bytes f b)
unfolding p_bytes
p_bytes-IsPayload f {n} {b} h =
    weaker (20 + n) (omega arith)
      (append-IsPayload (key-IsPayload f 2) (append-IsPayload (varint-IsPayload (length b)) h))

pub p_varint-IsPayload : (f v : ℕ) → IsPayload 20 (p_varint f v)
unfolding p_varint
p_varint-IsPayload f v = append-IsPayload (key-IsPayload f 0) (varint-IsPayload v)

char-IsByte : (c : ℕ) → c < 0x11_0000 → All IsByte (utf8_char c)
char-IsByte c h = ground arith

char-short : (c : ℕ) → length (utf8_char c) ≤ 4
char-short c = ground arith

pub utf8-IsPayload : (s : List ℕ) → IsText s → IsPayload (length s * 4) (utf8 s)
unfolding utf8
utf8-IsPayload [] h = nothing-IsPayload
utf8-IsPayload (c ∷ s) h =
    let first : IsPayload 4 (utf8_char c) = record {
      bytes = record { all = char-IsByte c h.0 };
      short = char-short c;
    } in
    weaker (length (c ∷ s) * 4) (omega arith) (append-IsPayload first (utf8-IsPayload s h.1))

pub p_string-IsPayload :
    (f : ℕ) (s : List ℕ) → IsText s → IsPayload (20 + length s * 4) (p_string f s)
unfolding p_string
p_string-IsPayload f s h = p_bytes-IsPayload f (utf8-IsPayload s h)

-- Parts in a row, each of `n` bytes at most.
pub concat-IsPayload :
    (n : ℕ) (bs : List Bytes) → All (IsPayload n) bs → IsPayload (length bs * n) (concat bs)
concat-IsPayload n [] h = weaker (length {A = Bytes} [] * n) (omega arith) nothing-IsPayload
concat-IsPayload n (b ∷ bs) h =
    weaker (length (b ∷ bs) * n) (omega arith) (append-IsPayload h.0 (concat-IsPayload n bs h.1))

-- A test for bytes that are known.
unfoldable pub is_payload : ℕ → Bytes → Bool
is_payload n [] = true
is_payload zero (b ∷ bs) = false
is_payload (suc n) (b ∷ bs) = ltb b 256 && is_payload n bs

pub is_payload-IsPayload : (n : ℕ) (b : Bytes) → is_payload n b ≡ true → IsPayload n b
unfolding is_payload
is_payload-IsPayload n [] e = record { bytes = record { all = tt }; short = omega arith }
is_payload-IsPayload zero (b ∷ bs) e = cc
is_payload-IsPayload (suc n) (b ∷ bs) e =
    let (first, rest) = and_inv _ _ e in
    let more = is_payload-IsPayload n bs rest in
    record {
      bytes = record { all = (ltb→lt b 256 first, more.bytes.all) };
      short = omega (arith, more.short);
    }
