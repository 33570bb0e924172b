-- ===== src/Sticker/Pack.antt =====
-- conformance/check_sticker_pack.py: the text that protoc encodes, and what `main` finds wrong. `protoc
-- --encode` and SHA-256 are parameters.
use construct_protos.Prelude.{
  ℕ, ◌*◌, ◌/◌, ◌%◌, List, [], ◌∷◌, ◌++◌, ◌&&◌, concat, ltb, leb, ◌==◌, length,
}
use construct_protos.Prelude.Checks.{check, checks}
use construct_protos.Prelude.Result.{ok, Raises, ◌>>=◌}
use construct_protos.Bytes.{Bytes, bytes_eq, codes}
use construct_protos.Bytes.Hex.{hex, hex_digit, fromhex}
use construct_protos.Bytes.Decimal.{decimal}
use construct_protos.Proto.{utf8}

-- "".join(f"\\x{x:02x}" for x in b)
unfoldable pub esc : Bytes → List ℕ
unfolding hex_digit
esc [] = []
esc (b ∷ bs) = 92 ∷ b'x' ∷ hex_digit (b / 16) ∷ hex_digit (b % 16) ∷ esc bs

-- A dict of `stickers`.
pub record Entry : Type 0 where
  pub sha256 : List ℕ
  pub emoji : List ℕ
  pub width : ℕ
  pub height : ℕ
  pub byte_len : ℕ

pub record Manifest : Type 0 where
  pub title : List ℕ
  pub publisher : List ℕ
  pub stickers : List Entry

pub record Document : Type 0 where
  pub manifest : Manifest
  pub canonical_hex : List ℕ
  pub pack_id_hex : List ℕ
  pub signature_hex : List ℕ
  pub manifest_hex : List ℕ

pub data Flaw : Type 0 where
  wrong_canonical wrong_pack_id wrong_manifest bad_sha256 bad_size bad_byte_len bad_emoji : Flaw

-- The text of one entry.
unfoldable pub entry_text : Entry → Raises (List ℕ)
entry_text e = do
  digest ← fromhex e.sha256
  ok (
      concat (
        codes "stickers { sha256: \""
        ∷ esc digest
        ∷ codes "\" emoji: \""
        ∷ e.emoji
        ∷ codes "\" width: "
        ∷ decimal e.width
        ∷ codes " height: "
        ∷ decimal e.height
        ∷ codes " byte_len: "
        ∷ decimal e.byte_len
        ∷ codes " }"
        ∷ []))

-- " ".join(...) of the entries
unfoldable pub entries_text : List Entry → Raises (List ℕ)
unfolding entry_text
entries_text [] = ok []
entries_text (e ∷ []) = entry_text e
entries_text (e ∷ e' ∷ es) = do
  first ← entry_text e
  rest ← entries_text (e' ∷ es)
  ok (first ++ (codes " " ++ rest))

unfoldable pub canon_tp : Manifest → Raises (List ℕ)
unfolding entries_text
canon_tp m = do
  entries ← entries_text m.stickers
  ok (
      concat (
        codes "title: \""
        ∷ m.title
        ∷ codes "\" publisher: \""
        ∷ m.publisher
        ∷ codes "\" "
        ∷ entries
        ∷ []))

-- The signature is written if there is one.
abbrev pub signature_text : Bytes → List ℕ
signature_text [] = []
signature_text (b ∷ bs) = codes " signature: \"" ++ (esc (b ∷ bs) ++ codes "\"")

unfoldable pub full_tp : Bytes → Bytes → List ℕ → List ℕ
full_tp pack_id sig canon =
    codes "pack_id: \"" ++ (esc pack_id ++ (codes "\" " ++ (canon ++ signature_text sig)))

-- The checks of one entry, of the bytes of its digest.
unfoldable pub entry_flaws : Entry → Bytes → List Flaw
entry_flaws e digest = checks (
    (length digest == 32, bad_sha256)
    ∷ (e.width == 512 && e.height == 512, bad_size)
    ∷ (ltb 0 e.byte_len && leb e.byte_len (100 * 1024), bad_byte_len)
    ∷ (leb 1 (length (utf8 e.emoji)) && leb (length (utf8 e.emoji)) 32, bad_emoji)
    ∷ [])

unfoldable pub entries_flaws : List Entry → Raises (List Flaw)
unfolding entry_flaws
entries_flaws [] = ok []
entries_flaws (e ∷ es) = do
  digest ← fromhex e.sha256
  rest ← entries_flaws es
  ok (entry_flaws e digest ++ rest)

module _ (encode : List ℕ → Raises Bytes) (sha256 : Bytes → Bytes) where
  -- The errors of `main`: the exit code is 0 exactly if there are none.
  unfoldable pub flaws : Document → Raises (List Flaw)
  unfolding canon_tp full_tp entries_flaws
  flaws doc = do
    canon ← canon_tp doc.manifest
    canonical ← encode canon
    sig ← fromhex doc.signature_hex
    pack_id ← fromhex doc.pack_id_hex
    full ← encode (full_tp pack_id sig canon)
    entries ← entries_flaws doc.manifest.stickers
    ok (
        check (bytes_eq (hex canonical) doc.canonical_hex) wrong_canonical
        ++ (check (bytes_eq (hex (sha256 canonical)) doc.pack_id_hex) wrong_pack_id
            ++ (check (bytes_eq (hex full) doc.manifest_hex) wrong_manifest ++ entries)))
