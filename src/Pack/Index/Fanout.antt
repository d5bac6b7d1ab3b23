-- ===== src/Pack/Index/Fanout.antt =====
-- The fanout table of a pack index: what verify_fanout_table leaves unchecked.
use gameoftrees.Base.{
  ℕ, zero, suc, ◌+◌, ◌-◌, ◌%◌, ◌^◌, ◌≤◌, ◌<◌, ◌≡◌, refl, ap, ◌∙◌, false, List, [], ◌∷◌, ◌++◌, Bytes,
  arith, ◌==◌, replicate,
}
use gameoftrees.Error.{ok, trap, out_of_bounds}
use gameoftrees.Pack.Index.{
  PackIdx, entry_at, fanout_loop, verify_fanout_table, int_of, middle, search_loop, first_byte,
  get_object_idx,
}

fanout_loop-replicate :
    (k x : ℕ) (rest : List ℕ) → fanout_loop k (replicate (suc k) x ++ rest) ≡ ok tt
unfolding fanout_loop
fanout_loop-replicate zero x rest = refl
fanout_loop-replicate (suc k) x rest = ground (arith, fanout_loop-replicate k x rest)

entry_at-replicate : (k x i : ℕ) (rest : List ℕ) → i < k → entry_at (replicate k x ++ rest) i ≡ ok x
entry_at-replicate zero x i rest h = absurd (omega arith)
entry_at-replicate (suc k) x zero rest h = refl
entry_at-replicate (suc k) x (suc i) rest h = entry_at-replicate k x i rest (omega arith)

entry_at-last : (k x n : ℕ) → entry_at (replicate k x ++ (n ∷ [])) k ≡ ok n
entry_at-last zero x n = refl
entry_at-last (suc k) x n = entry_at-last k x n

search_loop-negative :
    (fuel x n : ℕ) (packidx : PackIdx) (id : Bytes)
    → 2 ^ 31 ≤ x
    → 1 ≤ n
    → x + n < 2 ^ 32
    → search_loop (suc fuel) packidx.sorted_ids id (int_of x) (int_of ((n + (2 ^ 32 - 1)) % 2 ^ 32))
      ≡ trap out_of_bounds
unfolding search_loop middle
search_loop-negative fuel x n packidx id h k s = ground arith

-- verify_fanout_table accepts a table whose entries, other than the last, are all one number of
-- 2 ^ 31 or more, and with such a table of fewer than 2 ^ 32 minus this number objects,
-- got_packidx_get_object_idx of an identifier that does not begin with a zero byte reads outside
-- the table of identifiers, whatever that table holds.
pub verify_fanout_table_gap :
    (x n : ℕ) (packidx : PackIdx) (id : Bytes)
    → 2 ^ 31 ≤ x
    → 1 ≤ n
    → x + n < 2 ^ 32
    → packidx.fanout_table ≡ replicate 0xff x ++ (n ∷ [])
    → 1 ≤ first_byte id
    → first_byte id < 256
    → (verify_fanout_table packidx.fanout_table ≡ ok tt)
      × (get_object_idx packidx id ≡ trap out_of_bounds)
unfolding verify_fanout_table get_object_idx
verify_fanout_table_gap x n packidx id h k s table b b' =
    let nonzero : (first_byte id == 0) ≡ false = ground arith in
    let b : ℕ = first_byte id - 1 in
    let total : entry_at packidx.fanout_table 0xff ≡ ok n =
      ap (λ (t : List ℕ). entry_at t 0xff) table ∙ entry_at-last 0xff x n in
    let first : entry_at packidx.fanout_table b ≡ ok x =
      ap (λ (t : List ℕ). entry_at t b) table
      ∙ entry_at-replicate 0xff x b (n ∷ []) (omega arith) in
    (
      ap verify_fanout_table table ∙ fanout_loop-replicate (0xff - 1) x (n ∷ []),
      rw (total, nonzero, first) (search_loop-negative n x n packidx id h k s),
    )
