-- ===== src/FileIndex/Codec/Paths.antt =====
-- A path in the file: padded with NUL to a multiple of 8 bytes, and read back in chunks of 8.
use gameoftrees.Base.{
  ℕ, zero, suc, ◌+◌, ◌-◌, ◌%◌, ◌≡◌, ◌≤◌, ◌<◌, refl, sym, ap, ◌∙◌, Bool, true, false, ◌||◌, [], ◌∷◌,
  ◌++◌, Bytes, length, take, drop, replicate, arith, append_assoc, length-append, length-replicate,
  length-take, length-drop, take-append, drop-append, take-append-drop,
}
use native.Mathlib.Decide.{dec_lt}
use gameoftrees.Error.{ok}
use gameoftrees.FileIndex.Codec.{
  Sha1, pad_loop, path_pad, has_nul, c_string, read_chunk, read_path_loop, read_path,
}

-- The padding that makes a multiple of 8, and is at most 7.
pad_loop-padding :
    (fuel len pad : ℕ)
    → pad ≤ (8 - len % 8) % 8
    → (8 - len % 8) % 8 ≤ pad + fuel
    → pad_loop fuel len pad ≡ (8 - len % 8) % 8
unfolding pad_loop
pad_loop-padding zero len pad h k = omega arith
pad_loop-padding (suc fuel) len pad h k = ground (arith, pad_loop-padding fuel len (pad + 1))

pub path_pad_bounds :
    (len : ℕ) → ((len + path_pad len) % 8 ≡ 0) × (1 ≤ path_pad len) × (path_pad len ≤ 8)
unfolding path_pad
path_pad_bounds len = ground (arith, pad_loop-padding 8 len 0)

has_nul-append : (a b : Bytes) → has_nul (a ++ b) ≡ (has_nul a || has_nul b)
unfolding has_nul
has_nul-append [] b = refl
has_nul-append (c ∷ a) b = ground (arith, has_nul-append a b)

has_nul-pad : (p : Bytes) (k : ℕ) → 1 ≤ k → has_nul (p ++ replicate k 0) ≡ true
unfolding has_nul
has_nul-pad [] zero h = absurd (omega arith)
has_nul-pad [] (suc k) h = refl
has_nul-pad (c ∷ p) k h = ground (arith, has_nul-pad p k h)

c_string-pad : (p : Bytes) (k : ℕ) → has_nul p ≡ false → 1 ≤ k → c_string (p ++ replicate k 0) ≡ p
unfolding has_nul c_string
c_string-pad [] zero h l = absurd (omega arith)
c_string-pad [] (suc k) h l = refl
c_string-pad (c ∷ p) k h l = ground (arith, c_string-pad p k)

module _ (sha : Sha1) where
  pub read_chunk-append :
      (n : ℕ) (b rest : Bytes) (c : sha.Ctx)
      → length b ≡ n
      → read_chunk sha n (record { ctx = c; input = b ++ rest })
        ≡ ok (b, record { ctx = sha.update c b; input = rest })
  unfolding read_chunk
  read_chunk-append n b rest c h =
      rw (sym h, take-append b rest, drop-append b rest) (ground (arith, length-append {0} b rest))

  module _ (allocated : ℕ → Bool) (enough : (n : ℕ) → allocated n ≡ true) where
    read_path_loop-padded :
        (fuel : ℕ) (acc p rest : Bytes) (k : ℕ) (c : sha.Ctx)
        → length p < fuel
        → has_nul acc ≡ false
        → has_nul p ≡ false
        → (length p + k) % 8 ≡ 0
        → 1 ≤ k
        → k ≤ 8
        → read_path_loop sha allocated fuel acc
            (record { ctx = c; input = p ++ (replicate k 0 ++ rest) })
          ≡ ok
              (acc ++ p, record { ctx = sha.update (sha.update c p) (replicate k 0); input = rest })
    unfolding read_path_loop
    read_path_loop-padded zero acc p rest k c f ha hp m k1 k8 = absurd (omega arith)
    read_path_loop-padded (suc fuel) acc p rest k c f ha hp m k1 k8 = elim (dec_lt (length p) 8) [
      | yes short ↦
          rw
            (
              enough (length acc + 8),
              sym (append_assoc p (replicate k 0) rest),
              read_chunk-append 8 (p ++ replicate k 0) rest c (
                  omega (arith, length-append {0} p (replicate k 0), length-replicate {A = ℕ} k 0)),
              has_nul-pad p k k1,
              sym (append_assoc acc p (replicate k 0)),
              c_string-pad (acc ++ p) k (has_nul-append acc p ∙ rw (ha, hp) refl) k1,
              sha.update_law c p (replicate k 0),
            )
            refl
      | no long ↦
          let first : Bytes = take 8 p in
          let later : Bytes = drop 8 p in
          let split : first ++ later ≡ p = take-append-drop 8 p in
          let clean : (has_nul first || has_nul later) ≡ false =
            sym (has_nul-append first later) ∙ ap has_nul split ∙ hp in
          let rest' : Bytes = replicate k 0 ++ rest in
          let shape : p ++ rest' ≡ first ++ (later ++ rest') =
            ap (λ (t : Bytes). t ++ rest') (sym split) ∙ append_assoc first later rest' in
          let clean_first : has_nul first ≡ false = ground arith in
          let clean_later : has_nul later ≡ false = ground arith in
          rw
            (
              enough (length acc + 8),
              shape,
              read_chunk-append 8 first (later ++ rest') c (omega (arith, length-take {0} 8 p)),
              clean_first,
              read_path_loop-padded fuel (acc ++ first) later rest k (sha.update c first)
                  (omega (arith, length-drop {0} 8 p))
                  (has_nul-append acc first ∙ rw (ha, clean_first) refl) clean_later
                  (omega (arith, length-drop {0} 8 p)) k1 k8,
              append_assoc acc first later,
              sha.update_law c first later,
              split,
            )
            refl
    ]

    pub read_path-padded :
        (p rest : Bytes) (c : sha.Ctx)
        → has_nul p ≡ false
        → read_path sha allocated
            (record { ctx = c; input = p ++ (replicate (path_pad (length p)) 0 ++ rest) })
          ≡ ok (
            p,
            record {
              ctx = sha.update (sha.update c p) (replicate (path_pad (length p)) 0);
              input = rest;
            },
          )
    unfolding read_path has_nul
    read_path-padded p rest c h =
        let k : ℕ = path_pad (length p) in
        let (m, k1, k8) = path_pad_bounds (length p) in
        read_path_loop-padded _ [] p rest k c
          (omega (arith, length-append {0} p (replicate k 0 ++ rest))) refl h m k1 k8
