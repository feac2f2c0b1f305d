-- ===== src/Storage/HardState/Durable.antt =====
-- What a write of src/raft_hard_state_store.cpp leaves on the medium, whether or not a call fails.
use kura_metadata_store.Prelude.{
  ℕ, zero, suc, ◌≡◌, ◌≢◌, refl, ap, subst, ◌∙◌, ◌⊎◌, inl, inr, Option, some, List, [], ◌∷◌, ◌++◌,
  take, drop,
}
use mathlib.Core.List.{append_assoc, append-nil}
use kura_metadata_store.Storage.HardState.Files.{
  Outcome, done, failed, FileSystem, IsFileSystem, WriteReturn, wrote, refused, DirectoryReturn,
  synchronized, unsupported, unsynchronized,
}
use kura_metadata_store.Storage.HardState.Persist.{
  RaftHardStateWriteBoundary, temporary_created, record_written, temporary_synchronized,
  temporary_closed, final_replaced, directory_synchronized, ◌and_then◌, reached, write_temporary,
  write_record, clean_up, write_all, after_write_return, best_effort,
}

take-drop : (n : ℕ) (xs : List ℕ) → take n xs ++ drop n xs ≡ xs
take-drop zero xs = refl
take-drop (suc n) [] = refl
take-drop (suc n) (x ∷ xs) = ap (λ ys. x ∷ ys) (take-drop n xs)

module _ {D : Type 0} (fs : FileSystem D) (law : IsFileSystem fs) where
  -- A restart finds what one on `old` may find, or the new contents.
  abbrev pub FindsEither : D → List ℕ → D → Type 0
  FindsEither old bytes d = (c : Option (List ℕ)) → fs.found d c → fs.found old c ⊎ (c ≡ some bytes)

  -- Where a part of the write stops: a restart finds either contents, and `Good` holds if it worked.
  abbrev Stage : D → List ℕ → (D → Type 0) → D × Outcome → Type 0
  Stage old bytes Good p = FindsEither old bytes p.0 × (p.1 ≡ done → Good p.0)

  abbrev HasWritten : List ℕ → D → Type 0
  HasWritten t d = fs.temporary d ≡ some t

  abbrev IsSynchronized : List ℕ → D → Type 0
  IsSynchronized bytes d = HasWritten bytes d × ((t : List ℕ) → fs.staged d t → t ≡ bytes)

  abbrev IsReplaced : List ℕ → D → Type 0
  IsReplaced bytes d = fs.final d ≡ some bytes

  -- A restart finds the new contents.
  abbrev FindsNew : List ℕ → D → Type 0
  FindsNew bytes d = (c : Option (List ℕ)) → fs.found d c → c ≡ some bytes

  then-Stage :
      (old : D) (bytes : List ℕ) (Good Better : D → Type 0) (p : D × Outcome)
      (next : D → D × Outcome)
      → Stage old bytes Good p
      → ((d : D) → FindsEither old bytes d → Good d → Stage old bytes Better (next d))
      → Stage old bytes Better (p and_then next)
  then-Stage old bytes Good Better (d, done) next (f, h) go = go d f (h refl)
  then-Stage old bytes Good Better (d, failed e) next (f, h) go = (f, λ bad. cc)

  reached-Stage :
      (hook : RaftHardStateWriteBoundary → Outcome) (b : RaftHardStateWriteBoundary) (old : D)
      (bytes : List ℕ) (Good : D → Type 0) (d : D)
      → FindsEither old bytes d
      → Good d
      → Stage old bytes Good (reached fs hook b d)
  unfolding reached
  reached-Stage hook b old bytes Good d f h = (f, λ good. h)

  round_of_write_all :
      (old : D) (bytes : List ℕ) (Good : D → Type 0) (p : D × WriteReturn)
      (next : ℕ → D → D × Outcome)
      → FindsEither old bytes p.0
      → ((count : ℕ) → p.1 ≡ wrote (suc count) → Stage old bytes Good (next count p.0))
      → Stage old bytes Good (after_write_return fs p next)
  round_of_write_all old bytes Good (d, refused e) next f go = (f, λ bad. cc)
  round_of_write_all old bytes Good (d, wrote zero) next f go = (f, λ bad. cc)
  round_of_write_all old bytes Good (d, wrote (suc count)) next f go = go count refl

  -- `write_all` appends all bytes, however few of them each `write` takes.
  write_all-Stage :
      (old : D) (bytes : List ℕ) (written : ℕ) (rest before : List ℕ) (d : D)
      → FindsEither old bytes d
      → HasWritten before d
      → Stage old bytes (HasWritten (before ++ drop written rest)) (write_all fs written rest d)
  unfolding write_all
  write_all-Stage old bytes zero [] before d f h = (f, λ good. rw (append-nil before) h)
  write_all-Stage old bytes (suc written) [] before d f h = (f, λ good. rw (append-nil before) h)
  write_all-Stage old bytes (suc written) (b ∷ bs) before d f h =
      write_all-Stage old bytes written bs before d f h
  write_all-Stage old bytes zero (b ∷ bs) before d f h =
      let kept : FindsEither old bytes (fs.write (b ∷ bs) d).0 =
        λ c g. f c (law.write-found (b ∷ bs) d c g) in
      round_of_write_all old bytes (HasWritten (before ++ b ∷ bs)) (fs.write (b ∷ bs) d) _ kept
        (λ count e.
          subst
            (λ (t : List ℕ).
              Stage old bytes (HasWritten t) (write_all fs count bs (fs.write (b ∷ bs) d).0))
            (append_assoc before (b ∷ take count bs) (drop count bs)
              ∙ ap (λ ys. before ++ b ∷ ys) (take-drop count bs))
            (write_all-Stage old bytes count bs (before ++ b ∷ take count bs)
              (fs.write (b ∷ bs) d).0 kept (law.write-appends (b ∷ bs) before d (suc count) h e)))

  renamed :
      (old : D) (bytes : List ℕ) (d : D)
      → FindsEither old bytes d
      → IsSynchronized bytes d
      → (c : Option (List ℕ)) → fs.found d c ⊎ ((t : List ℕ) × fs.staged d t × (c ≡ some t))
      → fs.found old c ⊎ (c ≡ some bytes)
  renamed old bytes d f h c (inl g) = f c g
  renamed old bytes d f (h, k) c (inr (t, staged, e)) = inr (e ∙ ap some (k t staged))

  rename-Stage :
      (old : D) (bytes : List ℕ) (d : D)
      → FindsEither old bytes d
      → IsSynchronized bytes d
      → Stage old bytes (IsReplaced bytes) (fs.rename d)
  rename-Stage old bytes d f h = (
    (λ c g. renamed old bytes d f h c (law.rename-found d c g)),
    λ good. law.rename-final d good ∙ h.0,
  )

  clean_up-Stage :
      (old : D) (bytes : List ℕ) (Good : D → Type 0) (p : D × Outcome)
      → Stage old bytes Good p
      → Stage old bytes Good (clean_up fs p)
  clean_up-Stage old bytes Good (d, done) h = h
  clean_up-Stage old bytes Good (d, failed e) (f, h) =
      ((λ c g. f c (law.remove_temporary-found d c g)), λ bad. cc)

  write_temporary-Stage :
      (hook : RaftHardStateWriteBoundary → Outcome) (old : D) (bytes : List ℕ) (d : D)
      → FindsEither old bytes d
      → HasWritten [] d
      → Stage old bytes (IsReplaced bytes) (write_temporary fs hook bytes d)
  unfolding write_temporary
  write_temporary-Stage hook old bytes d f h =
      then-Stage old bytes (IsSynchronized bytes) (IsReplaced bytes) _ fs.rename
        (then-Stage old bytes (IsSynchronized bytes) (IsSynchronized bytes) _
          (reached fs hook temporary_closed)
          (then-Stage old bytes (IsSynchronized bytes) (IsSynchronized bytes) _ fs.close
            (then-Stage old bytes (IsSynchronized bytes) (IsSynchronized bytes) _
              (reached fs hook temporary_synchronized)
              (then-Stage old bytes (HasWritten bytes) (IsSynchronized bytes) _ fs.fsync
                (then-Stage old bytes (HasWritten bytes) (HasWritten bytes) _
                  (reached fs hook record_written)
                  (then-Stage old bytes (HasWritten []) (HasWritten bytes)
                    (reached fs hook temporary_created d) (write_all fs 0 bytes)
                    (reached-Stage hook temporary_created old bytes (HasWritten []) d f h)
                    (write_all-Stage old bytes 0 bytes []))
                  (reached-Stage hook record_written old bytes (HasWritten bytes)))
                (λ x fx hx. (
                  (λ c g. fx c (law.fsync-found x c g)),
                  λ good. (
                    law.fsync-temporary x ∙ hx,
                    λ t staged. law.fsync-staged x bytes t hx good staged,
                  ),
                )))
              (reached-Stage hook temporary_synchronized old bytes (IsSynchronized bytes)))
            (λ x fx hx. (
              (λ c g. fx c (law.close-found x c g)),
              λ good.
                  (law.close-temporary x ∙ hx.0, λ t staged. hx.1 t (law.close-staged x t staged)),
            )))
          (reached-Stage hook temporary_closed old bytes (IsSynchronized bytes)))
        (rename-Stage old bytes)

  module _ (supported : (d : D) → (fs.fsync_directory d).1 ≢ unsupported) where
    best_effort-Stage :
        (old : D) (bytes : List ℕ) (p : D × DirectoryReturn)
        → FindsEither old bytes p.0
        → (p.1 ≢ unsupported)
        → (p.1 ≡ synchronized → FindsNew bytes p.0)
        → Stage old bytes (FindsNew bytes) (best_effort fs p)
    best_effort-Stage old bytes (d, synchronized) f other new = (f, λ good. new refl)
    best_effort-Stage old bytes (d, unsupported) f other new = (f, λ good. absurd (other refl))
    best_effort-Stage old bytes (d, unsynchronized e) f other new = (f, λ bad. cc)

    -- The whole write.
    abbrev pub IsWritten : D → List ℕ → D × Outcome → Type 0
    IsWritten old bytes p = Stage old bytes (FindsNew bytes) p

    pub write_record-IsWritten :
        (hook : RaftHardStateWriteBoundary → Outcome) (bytes : List ℕ) (d : D)
        → IsWritten d bytes (write_record fs hook bytes d)
    unfolding write_record
    write_record-IsWritten hook bytes d =
        then-Stage d bytes (FindsNew bytes) (FindsNew bytes) _
          (reached fs hook directory_synchronized)
          (then-Stage d bytes (IsReplaced bytes) (FindsNew bytes) _
            (λ replaced. best_effort fs (fs.fsync_directory replaced))
            (then-Stage d bytes (IsReplaced bytes) (IsReplaced bytes) _
              (reached fs hook final_replaced)
              (then-Stage d bytes (HasWritten []) (IsReplaced bytes) (fs.create_new d)
                (λ created. clean_up fs (write_temporary fs hook bytes created))
                ((λ c g. inl (law.create_new-found d c g)), law.create_new-empty d)
                (λ x fx hx.
                  clean_up-Stage d bytes (IsReplaced bytes) (write_temporary fs hook bytes x)
                    (write_temporary-Stage hook d bytes x fx hx)))
              (reached-Stage hook final_replaced d bytes (IsReplaced bytes)))
            (λ x fx hx.
              best_effort-Stage d bytes (fs.fsync_directory x)
                (λ c g. fx c (law.fsync_directory-found x c g)) (supported x)
                (λ good c g. law.fsync_directory-names x c good g ∙ hx)))
          (reached-Stage hook directory_synchronized d bytes (FindsNew bytes))
