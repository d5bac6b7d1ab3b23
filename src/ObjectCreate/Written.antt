-- ===== src/ObjectCreate/Written.antt =====
-- What has been written, and what SHA1 has been given.
use gameoftrees.Base.{◌≡◌, refl, ap, sym, ◌∙◌, List, [], ◌∷◌, ◌++◌, Bytes, append_assoc, append-nil}
use gameoftrees.FileIndex.Codec.{Sha1}
use gameoftrees.ObjectCreate.{Step, update, fwrite, Output, no_output, run_step, run_steps, written}

-- What the steps write.
abbrev pub filed : List Step → Bytes
filed [] = []
filed (fwrite text ∷ steps) = text ++ filed steps
filed (update text ∷ steps) = filed steps

-- What the steps give to SHA1.
abbrev pub hashed : List Step → Bytes
hashed [] = []
hashed (update text ∷ steps) = text ++ hashed steps
hashed (fwrite text ∷ steps) = hashed steps

pub filed-append : (a b : List Step) → filed (a ++ b) ≡ filed a ++ filed b
filed-append [] b = refl
filed-append (fwrite text ∷ a) b =
    ap (◌++◌ text) (filed-append a b) ∙ sym (append_assoc text (filed a) (filed b))
filed-append (update text ∷ a) b = filed-append a b

pub hashed-append : (a b : List Step) → hashed (a ++ b) ≡ hashed a ++ hashed b
hashed-append [] b = refl
hashed-append (update text ∷ a) b =
    ap (◌++◌ text) (hashed-append a b) ∙ sym (append_assoc text (hashed a) (hashed b))
hashed-append (fwrite text ∷ a) b = hashed-append a b

module _ (sha : Sha1) where
  -- The state is that of SHA1 after a text.
  ctx_lem :
      (o : Output sha) (steps : List Step) (text : Bytes)
      → o.ctx ≡ sha.update sha.init text
      → (run_steps sha o steps).ctx ≡ sha.update sha.init (text ++ hashed steps)
  ctx_lem o [] text h = h ∙ ap (sha.update sha.init) (sym (append-nil text))
  ctx_lem o (update t ∷ steps) text h =
      ctx_lem (run_step sha o (update t)) steps (text ++ t)
        (ap (λ (c : sha.Ctx). sha.update c t) h ∙ sha.update_law sha.init text t)
      ∙ ap (sha.update sha.init) (append_assoc text t (hashed steps))
  ctx_lem o (fwrite t ∷ steps) text h = ctx_lem (run_step sha o (fwrite t)) steps text h

  file_lem :
      (o : Output sha) (steps : List Step) → (run_steps sha o steps).file ≡ o.file ++ filed steps
  file_lem o [] = sym (append-nil o.file)
  file_lem o (fwrite t ∷ steps) =
      file_lem (run_step sha o (fwrite t)) steps ∙ append_assoc o.file t (filed steps)
  file_lem o (update t ∷ steps) = file_lem (run_step sha o (update t)) steps

  pub written-file : (steps : List Step) → (written sha steps).1 ≡ filed steps
  unfolding written
  written-file steps = file_lem (no_output sha) steps

  -- Where SHA1 is given what is written, the identifier is the digest of the file.
  pub written-digest :
      (text : Bytes) (steps : List Step)
      → hashed (update text ∷ steps) ≡ filed (update text ∷ steps)
      → (written sha (update text ∷ steps)).0
        ≡ sha.final (sha.update sha.init (written sha (update text ∷ steps)).1)
  unfolding written
  written-digest text steps same = ap sha.final (
      ctx_lem (run_step sha (no_output sha) (update text)) steps text refl
      ∙ ap (sha.update sha.init) (same ∙ sym (file_lem (no_output sha) (update text ∷ steps))))
