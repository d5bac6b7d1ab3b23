-- ===== src/FileIndex/Codec/Numbers.antt =====
-- Big-endian numbers.
use gameoftrees.Base.{
  ℕ, zero, suc, ◌+◌, ◌*◌, ◌/◌, ◌%◌, ◌^◌, ◌≡◌, ◌<◌, refl, ◌∙◌, [], ◌∷◌, Bytes, length, arith,
}
use gameoftrees.FileIndex.Codec.{be, be_onto, be_fold}

pub length-be_onto : (n v : ℕ) (acc : Bytes) → length (be_onto n v acc) ≡ n + length acc
unfolding be_onto
length-be_onto zero v acc = omega arith
length-be_onto (suc n) v acc = omega (arith, length-be_onto n (v / 256) ((v % 256) ∷ acc))

be_fold-be_onto :
    (n v : ℕ) (acc : Bytes) → v < 256 ^ n → be_fold 0 (be_onto n v acc) ≡ be_fold v acc
unfolding be_onto be_fold
be_fold-be_onto zero v acc h = ground arith
be_fold-be_onto (suc n) v acc h =
    be_fold-be_onto n (v / 256) ((v % 256) ∷ acc) (omega arith)
    ∙ (let digits : v / 256 * 256 + v % 256 ≡ v = omega arith in rw digits refl)

pub be_fold-be : (n v : ℕ) → v < 256 ^ n → be_fold 0 (be n v) ≡ v
unfolding be_fold
be_fold-be n v h = be_fold-be_onto n v [] h
