-- ===== src/ObjectCreate/Fields.antt =====
-- The fields that lib/object_create.c writes, and what lib/object_parse.c makes of them.
use gameoftrees.Base.{
  ℕ, ◌+◌, ◌-◌, ◌^◌, ◌<◌, ◌≤◌, ◌≡◌, ◌≢◌, refl, ap, ◌∙◌, true, false, [], ◌∷◌, ◌++◌, Bytes, some, All,
  arith, ◌==◌, length, length-append, append_assoc, ltb, All-append,
}
use gameoftrees.Base.Int.{ℤ, pos, negsuc, pos_part}
use gameoftrees.Error.{ok}
use gameoftrees.Digest.{digest_text}
use gameoftrees.ObjectParse.Tree.{string_of}
use gameoftrees.ObjectParse.Header.RoundTrip.{header}
use gameoftrees.ObjectParse.Fields.{optional_signature}
use gameoftrees.ObjectParse.Fields.RoundTrip.{
  IsId, IsText, person, in_utc, optional_signature-person, length-digest_text,
}
use gameoftrees.ObjectCreate.{header_text, person_text, id_line}

-- A time that strtonum(3) takes.
abbrev pub IsTime : ℤ → Type 0
IsTime (pos n) = n ≤ 2 ^ 63 - 1
IsTime (negsuc n) = ⊥

pub length-id_line : (label id : Bytes) → IsId id → length (id_line label id) ≡ length label + 41
length-id_line label id h = omega (
  arith,
  length-append {0} label (digest_text id ++ (0x0a ∷ [])),
  length-append {0} (digest_text id) (0x0a ∷ []),
  length-digest_text id,
  h.whole,
)

pub id_line-append :
    (label id rest : Bytes) → id_line label id ++ rest ≡ label ++ (digest_text id ++ (0x0a ∷ rest))
id_line-append label id rest = simp append_assoc

abbrev pub message_text : Bytes → Bytes
message_text msg = 0x0a ∷ (msg ++ (0x0a ∷ []))

pub string_of-all : (s : Bytes) → All (λ b. b ≢ 0) s → string_of s ≡ s
string_of-all [] h = refl
string_of-all (c ∷ s) h =
    let text : (c == 0) ≡ false = ground (arith, h.0) in rw (text, string_of-all s h.1) refl

person_text-person :
    (label name : Bytes) (n : ℕ) (rest : Bytes)
    → person_text label name (pos n) ++ rest ≡ label ++ (person name n ++ (0x0a ∷ rest))
person_text-person label name n rest = simp append_assoc

pub optional_signature-person_text :
    (label name : Bytes) (time : ℤ) (rest : Bytes)
    → IsText name
    → IsTime time
    → optional_signature label (person_text label name time ++ rest)
      ≡ ok (some (in_utc name (pos_part time)), rest)
optional_signature-person_text label name (pos n) rest h k =
    ap (optional_signature label) (person_text-person label name n rest)
    ∙ optional_signature-person label name n rest h k
optional_signature-person_text label name (negsuc n) rest h k = absurd k

pub message_text-All : (msg : Bytes) → All (λ b. b ≢ 0) msg → All (λ b. b ≢ 0) (message_text msg)
message_text-All msg h = (omega arith, All-append (λ b. b ≢ 0) msg (0x0a ∷ []) h (omega arith, tt))

-- A size that is not negative as an `ssize_t`.
pub header_text-header :
    (label : Bytes) (len size : ℕ)
    → len ≡ size
    → size < 2 ^ 63
    → header_text label len ≡ header label size
header_text-header label len size e h =
    let small : ltb size (2 ^ 63) ≡ true = ground (arith, h) in
    ap (header_text label) e ∙ rw small refl
