-- ===== src/Repository/Slug.antt =====
-- services/repository/managers/__init__.py: `slugify`, and that the naming policy accepts what it
-- gives. Each regular expression is a pass over the text.
use Prim.Native.Char.{code, Char}
use vision_virtual_intellige.Prelude.{
  String, ◌==◌, ◌≡◌, Bool, true, false, not, ◌&&◌, ◌||◌, refl, ap, ◌∙◌, foldl, arith, eq_iff, ◌⊎◌,
  inl, inr, Bool-cases, if◌then◌else◌, nat_eq, codes,
}
use vision_virtual_intellige.Repository.Names.{
  ok, Scan, start, inside, scan_slug, slug_char, accepted, matches_slug, validate_slug,
}

abbrev is_dash : Char → Bool
is_dash c = nat_eq (code c) 45

-- A character that a slug may have stays, and the others become one hyphen for each run of them.
abbrev put : Bool → Bool → Char → String → String
put true seen c rest = String.◌∷◌ c rest
put false true c rest = rest
put false false c rest = String.◌∷◌ "-" rest

-- `re.sub(r"[^a-z0-9]+", "-", s)`; `seen` when the character before was replaced.
unfoldable pub dashes : Bool → String → String
dashes seen String.[] = ""
dashes seen (String.◌∷◌ c s) = put (slug_char (code c)) seen c (dashes (not (slug_char (code c))) s)

-- `s.strip("-")`, from the left and from the right.
unfoldable pub strip_left : String → String
strip_left String.[] = ""
strip_left (String.◌∷◌ c s) = if is_dash c then strip_left s else String.◌∷◌ c s

unfoldable pub strip_right : String → String
strip_right String.[] = ""
strip_right (String.◌∷◌ c s) =
    let rest = strip_right s in if is_dash c && rest == "" then "" else String.◌∷◌ c rest

-- `re.sub(r"-{2}", "-", s)`; `seen` after a hyphen.
unfoldable pub collapse : Bool → String → String
collapse seen String.[] = ""
collapse seen (String.◌∷◌ c s) =
    let rest = collapse (is_dash c) s in if is_dash c && seen then rest else String.◌∷◌ c rest

unfoldable pub slugify : (String → String) → String → String
unfolding dashes strip_left strip_right collapse
slugify lower text =
    let s = collapse false (strip_right (strip_left (dashes false (lower text)))) in
    if s == "" then "repo" else s

-- Characters of a slug and hyphens, no hyphen after another; `seen` after a hyphen.
spaced : Bool → String → Bool
spaced seen String.[] = true
spaced seen (String.◌∷◌ c s) =
    let rest = spaced (is_dash c) s in (slug_char (code c) || is_dash c && not seen) && rest

spaced-dashes : (seen : Bool) (s : String) → spaced seen (dashes seen s) ≡ true
unfolding spaced dashes
spaced-dashes seen String.[] = refl
spaced-dashes seen (String.◌∷◌ c s) = ground (arith, spaced-dashes (not (slug_char (code c))) s)

spaced-collapse : (seen : Bool) (s : String) → spaced seen s ≡ true → collapse seen s ≡ s
unfolding spaced collapse
spaced-collapse seen String.[] h = refl
spaced-collapse seen (String.◌∷◌ c s) h = ground (arith, spaced-collapse (is_dash c) s)

spaced-strip_left :
    (seen : Bool) (s : String) → spaced seen s ≡ true → spaced true (strip_left s) ≡ true
unfolding spaced strip_left
spaced-strip_left seen String.[] h = refl
spaced-strip_left seen (String.◌∷◌ c s) h = ground (arith, spaced-strip_left (is_dash c) s)

spaced-weaken : (s : String) → spaced true s ≡ true → spaced false s ≡ true
unfolding spaced
spaced-weaken String.[] h = refl
spaced-weaken (String.◌∷◌ c s) h = ground arith

reads : Scan → String → Bool
reads from s = accepted (foldl scan_slug from (codes s))

-- Where the scan stands after a hyphen, or after a character of a slug.
abbrev after : Bool → Scan
after true = start
after false = inside

-- One step of the scan over a spaced text.
scan_slug-after :
    (seen : Bool) (c : Char) (s : String)
    → spaced seen (String.◌∷◌ c s) ≡ true
    → (scan_slug (after seen) (code c) ≡ after (is_dash c)) × (spaced (is_dash c) s ≡ true)
unfolding spaced
scan_slug-after true c s h = ground arith
scan_slug-after false c s h = ground arith

spaced-more :
    (seen : Bool) (c : Char) (s t : String)
    → spaced seen (String.◌∷◌ c s) ≡ true
    → spaced (is_dash c) t ≡ true
    → spaced seen (String.◌∷◌ c t) ≡ true
unfolding spaced
spaced-more seen c s t h k = ground arith

-- A text that does not end in a hyphen.
abbrev Ends : Bool → String → Type 0
Ends seen s = (spaced seen s ≡ true) × ((s ≡ "") ⊎ (reads (after seen) s ≡ true))

more-Ends :
    (seen : Bool) (c : Char) (s t : String)
    → spaced seen (String.◌∷◌ c s) ≡ true
    → spaced (is_dash c) t ≡ true
    → reads (after (is_dash c)) t ≡ true
    → Ends seen (String.◌∷◌ c t)
unfolding reads
more-Ends seen c s t h k r =
    (spaced-more seen c s t h k, inr (ap (λ from. reads from t) (scan_slug-after seen c s h).0 ∙ r))

kept-reads :
    (dash : Bool) (rest : String)
    → (dash && rest == "") ≡ false
    → ((rest ≡ "") ⊎ (reads (after dash) rest ≡ true))
    → reads (after dash) rest ≡ true
unfolding reads
kept-reads dash rest kept (inr r) = r
kept-reads true rest kept (inl e) = ground (arith, eq_iff rest "")
kept-reads false rest kept (inl e) = ap (reads inside) e

strip_right-Ends : (seen : Bool) (s : String) → spaced seen s ≡ true → Ends seen (strip_right s)
unfolding spaced strip_right reads
strip_right-Ends seen String.[] h = (refl, inl refl)
strip_right-Ends seen (String.◌∷◌ c s) h =
    let rest = strip_right s in
    let (sp, ends) = strip_right-Ends (is_dash c) s (scan_slug-after seen c s h).1 in
    elim (Bool-cases (is_dash c && rest == "")) [
      | inl gone ↦ rw gone (refl, inl refl)
      | inr kept ↦ rw kept (more-Ends seen c s rest h sp (kept-reads (is_dash c) rest kept ends))
    ]

or_repo-validate_slug :
    (s : String)
    → ((s ≡ "") ⊎ (reads start s ≡ true))
    → validate_slug (if s == "" then "repo" else s) ≡ ok tt
unfolding validate_slug matches_slug reads
or_repo-validate_slug s (inl e) = rw e refl
or_repo-validate_slug s (inr r) = elim (Bool-cases (s == "")) [
  | inl gone ↦ rw gone refl
  | inr more ↦ rw more (rw r refl)
]

-- The naming policy accepts every slug that `slugify` gives, whatever the text and however the
-- language lowers it.
pub validate_slug-slugify :
    (lower : String → String) (text : String) → validate_slug (slugify lower text) ≡ ok tt
unfolding slugify
validate_slug-slugify lower text =
    let s = strip_left (dashes false (lower text)) in
    let (sp, ends) =
      strip_right-Ends true s
        (spaced-strip_left false (dashes false (lower text)) (spaced-dashes false (lower text))) in
    ap (λ t. validate_slug (if t == "" then "repo" else t))
      (spaced-collapse false (strip_right s) (spaced-weaken (strip_right s) sp))
    ∙ or_repo-validate_slug (strip_right s) ends
