-- ===== src/Sticker/Reference/Tests.antt =====
-- A vector of a sticker, with the text that protoc may print of it.
use construct_protos.Prelude.{All, true, false, ℕ, ◌≡◌, ◌↔◌, refl, List, [], ◌∷◌, arith}
use construct_protos.Prelude.Result.{ok, Raises}
use construct_protos.Bytes.{Bytes, codes}
use construct_protos.Bytes.Hex.{hex, fromhex}
use construct_protos.Proto.{utf8}
use construct_protos.Sticker.{Case}
use construct_protos.Sticker.Entries.{stated_rules}
use construct_protos.Sticker.Spelled.{Spelled, spelled_end, three_digits, line_feed, double_quote}
use construct_protos.Sticker.Reference.{Vector, check_vector, passes}
use construct_protos.Sticker.Reference.Printed.{printed}
use construct_protos.Sticker.Reference.Accepted.{check_vector-nil_iff}
use construct_protos.Sticker.Reference.Passing.{Meant, Decodes, States, Obeys, passes_iff}

abbrev pack_id : Bytes
pack_id = 10 ∷ 34 ∷ 255 ∷ []

-- U+1F600
abbrev smile : List ℕ
smile = 0x1_F600 ∷ []

abbrev vector : Vector
vector = record {
  message_content_hex = codes "0a";
  pack_id_hex = codes "0a22ff";
  index = 7;
  emoji = smile;
}

abbrev pack_text : List ℕ
pack_text = codes "\\n\\\"\\377"

abbrev smile_text : List ℕ
smile_text = codes "\\360\\237\\230\\200"

abbrev protoc : Bytes → Raises (List ℕ)
protoc raw = ok (printed pack_text 7 smile_text)

pack-Spelled : Spelled pack_id pack_text
pack-Spelled = line_feed (double_quote (three_digits (omega arith) spelled_end))

smile-Spelled : Spelled (utf8 smile) smile_text
unfolding utf8
smile-Spelled = three_digits (omega arith) (
    three_digits (omega arith)
      (three_digits (omega arith) (three_digits (omega arith) spelled_end)))

check_vector-nil_iff_example :
    (check_vector protoc vector ≡ ok [])
    ↔ ((vector.pack_id_hex ≡ hex pack_id) × (vector.index ≡ 7) × (vector.emoji ≡ smile))
check_vector-nil_iff_example =
    check_vector-nil_iff protoc vector (10 ∷ []) pack_text smile_text 7 pack_id smile
      (unfold fromhex in refl) refl pack-Spelled smile-Spelled (refl, tt)

abbrev a_case : Case
a_case = record { pack_id_hex = codes "0a"; emoji = smile; valid = false }

abbrev meant : Meant
meant = record { pack = pack_id; index = 7; emoji = smile }

vector-Decodes : Decodes protoc vector meant
vector-Decodes = record {
  raw = 10 ∷ [];
  pack_text = pack_text;
  emoji_text = smile_text;
  read = unfold fromhex in refl;
  text = refl;
  pack_spelled = pack-Spelled;
  emoji_spelled = smile-Spelled;
  scalars = (refl, tt);
}

passes_iff_example : (passes protoc stated_rules (vector ∷ []) (a_case ∷ []) ≡ ok true) ↔ (
    All (λ (p : Vector × Meant). States p.0 p.1) ((vector, meant) ∷ [])
    × All (Obeys stated_rules) (a_case ∷ []))
passes_iff_example =
    passes_iff protoc stated_rules ((vector, meant) ∷ []) (a_case ∷ []) (vector-Decodes, tt)
