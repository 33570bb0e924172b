-- ===== src/Profile/Cases.antt =====
-- conformance/check_profile_share.py: the cases that `build` makes, with the texts for protoc, and the
-- loop of `main` over those of `apply`. `protoc --encode` is a parameter.
use construct_protos.Prelude.{
  ℕ, ◌+◌, ◌/◌, ◌%◌, ◌≡◌, refl, List, [], ◌∷◌, ◌++◌, Option, none, some, concat, String,
  if◌then◌else◌,
}
use construct_protos.Prelude.Result.{ok, Raises, ◌>>=◌}
use construct_protos.Bytes.{Bytes, byte_range, codes}
use construct_protos.Bytes.Hex.{hex}
use construct_protos.Bytes.Decimal.{decimal}
use construct_protos.Profile.{
  Case, Avatar, set, removed, unchanged, Action, download, clear, keep, Answer, apply, ignore,
  check_apply,
}

-- KEY
unfoldable pub media_key : Bytes
unfolding byte_range
media_key = byte_range 0x20 32

-- SHORT_KEY
unfoldable pub short_key : Bytes
unfolding byte_range
short_key = byte_range 0x20 16

-- "".join(f"\\{b:03o}" for b in key)
unfoldable pub octal : Bytes → List ℕ
octal [] = []
octal (b ∷ bs) = 92 ∷ (48 + b / 64) ∷ (48 + b / 8 % 8) ∷ (48 + b % 8) ∷ octal bs

unfoldable pub avatar_text : Bytes → List ℕ
unfolding octal
avatar_text key = concat (
    codes "avatar_set { media_id: \"m-1\" media_url: \"https://media.example/m-1\" media_key: \""
    ∷ octal key
    ∷ codes "\" mime_type: \"image/jpeg\" }"
    ∷ [])

-- SET
pub record AvatarSet : Type 0 where
  pub media_id : List ℕ
  pub media_url : List ℕ
  pub media_key : List ℕ
  pub mime_type : List ℕ

unfoldable pub the_set : AvatarSet
the_set = record {
  media_id = codes "m-1";
  media_url = codes "https://media.example/m-1";
  media_key = hex media_key;
  mime_type = codes "image/jpeg";
}

-- {"set": ...}, "removed" or "unchanged"
pub data ReadAvatar : Type 0 where
  is_set : AvatarSet → ReadAvatar
  is_removed is_unchanged : ReadAvatar

-- A dict of the `decode` cases, with the text that `payload` takes the place of.
pub record Decode : Type 0 where
  pub name : List ℕ
  pub text : List ℕ
  pub display_name : List ℕ
  pub edited_at_ms : ℕ
  pub avatar : ReadAvatar

-- f'display_name: "..." edited_at_ms: ...', and what stands behind it
abbrev profile_text : List ℕ → ℕ → List ℕ → List ℕ
profile_text display_name edited rest =
    codes "display_name: \""
    ++ (display_name ++ (codes "\" edited_at_ms: " ++ (decimal edited ++ rest)))

abbrev decode_case : String → String → ℕ → List ℕ → ReadAvatar → Decode
decode_case n display edited rest a = record {
  name = codes n;
  text = profile_text (codes display) edited rest;
  display_name = codes display;
  edited_at_ms = edited;
  avatar = a;
}

unfoldable pub decode_cases : List Decode
unfolding avatar_text the_set
decode_cases =
    decode_case "name_and_avatar" "Alice" 1759400000000 (codes " " ++ avatar_text media_key)
      (is_set the_set)
    ∷ decode_case "avatar_removed" "Alice" 1759400000001 (codes " avatar_removed: true") is_removed
    ∷ decode_case "avatar_unchanged" "Алиса" 1759400000002 [] is_unchanged
    ∷ decode_case "short_key_is_unchanged" "Alice" 1759400000003
        (codes " " ++ avatar_text short_key) is_unchanged
    ∷ []

-- case["payload"] = encode(case.pop("text")), for each case
unfoldable pub encoded : (List ℕ → Raises (List ℕ)) → List Decode → Raises (List (Decode × List ℕ))
encoded encode [] = ok []
encoded encode (c ∷ cs) = do
  payload ← encode c.text
  rest ← encoded encode cs
  ok ((c, payload) ∷ rest)

abbrev apply_case : Option ℕ → ℕ → Avatar → Answer → Option Action → Case
apply_case held edited a r action = record {
  held_edited_at_ms = held;
  edited_at_ms = edited;
  avatar = a;
  result = r;
  avatar_action = action;
}

abbrev pub apply_cases : List (List ℕ × Case)
apply_cases =
    (codes "first_profile", apply_case none 10 unchanged apply (some keep))
    ∷ (codes "newer", apply_case (some 10) 11 set apply (some download))
    ∷ (codes "same_is_not_newer", apply_case (some 11) 11 set ignore none)
    ∷ (codes "older_is_ignored", apply_case (some 11) 9 removed ignore none)
    ∷ (codes "removed_clears", apply_case (some 11) 12 removed apply (some clear))
    ∷ (codes "unchanged_keeps", apply_case (some 12) 13 unchanged apply (some keep))
    ∷ []

-- The loop of `main`: the name of the first case that disagrees with the rule.
unfoldable pub first_wrong : List (List ℕ × Case) → Option (List ℕ)
first_wrong [] = none
first_wrong ((name, c) ∷ cs) =
    let rest = first_wrong cs in if check_apply c then rest else some name

none_wrong : first_wrong apply_cases ≡ none
unfolding first_wrong check_apply
none_wrong = refl
