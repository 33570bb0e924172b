-- ===== src/Sticker/Tests.antt =====
-- The theorems on stickers at concrete inputs.
use construct_protos.Prelude.{
  ℕ, ◌≡◌, refl, List, [], ◌∷◌, true, length, replicate, length-replicate, All, arith,
}
use construct_protos.Prelude.Checks.{checks}
use construct_protos.Prelude.Result.{ok, err, Raises, key_error, index_error}
use construct_protos.Bytes.{Bytes, IsByte, codes}
use construct_protos.Bytes.Hex.{hex, fromhex, digit_value, is_space}
use construct_protos.Proto.{utf8}
use construct_protos.Sticker.{unescape, octal_digits, computed}
use construct_protos.Sticker.Pack.{esc, Entry, Document, flaws}
use construct_protos.Sticker.Escape.{quoted, unescape-esc}
use construct_protos.Sticker.Entries.{stated_rules, references_accepted}

-- Escapes of each kind between plain characters, and two bodies that are refused.
mixed : unescape (codes "\"a\\x0f\\n\\101\\7b\\\\\"") ≡ ok (97 ∷ 15 ∷ 10 ∷ 65 ∷ 7 ∷ 98 ∷ 92 ∷ [])
unfolding unescape octal_digits utf8 digit_value
mixed = refl

unknown_escape : unescape (codes "\"\\q\"") ≡ err key_error
unfolding unescape octal_digits
unknown_escape = refl

cut_escape : unescape (codes "\"a\\\"") ≡ err index_error
unfolding unescape octal_digits utf8
cut_escape = refl

abbrev some_bytes : Bytes
some_bytes = 0 ∷ 92 ∷ 255 ∷ 34 ∷ []

unescape-esc_example : unescape (quoted (esc some_bytes)) ≡ ok some_bytes
unescape-esc_example = unescape-esc some_bytes (omega arith)

abbrev encode : List ℕ → Raises Bytes
encode text = ok (0xab ∷ [])

abbrev sha256 : Bytes → Bytes
sha256 message = replicate 32 0

digest : (m : Bytes) → (length (sha256 m) ≡ 32) × All IsByte (sha256 m)
digest m = (length-replicate {A = ℕ} 32 0, omega arith)

abbrev sticker : Entry
sticker = record {
  sha256 = hex (replicate 32 0);
  emoji = codes "👍";
  width = 512;
  height = 512;
  byte_len = 1000;
}

abbrev document : Document
document = record {
  manifest = record { title = codes "t"; publisher = codes "p"; stickers = sticker ∷ [] };
  canonical_hex = codes "ab";
  pack_id_hex = hex (replicate 32 0);
  signature_hex = [];
  manifest_hex = codes "ab";
}

no_flaw : flaws encode sha256 document ≡ ok []
unfolding flaws fromhex hex digit_value is_space checks utf8
no_flaw = refl

references_accepted_example :
    All
      (λ e. computed stated_rules document.pack_id_hex e.emoji ≡ ok true)
      document.manifest.stickers
references_accepted_example = references_accepted encode sha256 document digest no_flaw
