-- ===== src/Sync/FileLock/Ending.antt =====
-- The end of the processes of sync/file_lock.c, and their descriptor.
use linux_tutorial.Prelude.{
  ℕ, zero, suc, ◌+◌, ◌<◌, true, false, Option, none, some, ◌≡◌, ◌≢◌, ◌⊎◌, inl, inr, refl, arith,
  ◌∷◌,
}
use linux_tutorial.Prelude.Int.{pos, negsuc}
use linux_tutorial.Prog.Logic.{Monitor, Ensures, Ensures-bind, Ensures_mono, Ensures-elim}
use linux_tutorial.Prog.Both.{both}
use linux_tutorial.Platform.{
  Call, Reply, Io, Lock, write_lock, read_lock, unlocked, after, is_zero, is_error, minus_one,
}
use linux_tutorial.Platform.Resources.{fd, resources, stdio}
use linux_tutorial.Platform.Deadline.{deadline}
use linux_tutorial.Sync.FileLock.{
  set_lock, file_wlock, file_rlock, file_unlock, write_work, read_work, write_turn, read_turn,
  process_write, process_read, leave, share, register_signal, main,
}

-- Descriptors are closed, and the flag is set by its read number `m`.
abbrev pub ending : ℕ → Monitor Call Reply
ending m = both (resources false) (deadline m)

-- Between `main` and its end, the file is open.
set_lock-keeps :
    (m f s : ℕ) (lock : Lock)
    → Ensures
        (ending m)
        (fd (pos f) ∷ stdio, s)
        (set_lock lock (pos f))
        (λ t _. t ≡ (fd (pos f) ∷ stdio, s))
unfolding set_lock
set_lock-keeps m f s lock = (
  (tt, tt),
  λ _ _. (
    (ground arith, tt),
    λ r _. Ensures-elim (ending m) (is_error r) _ _ _ _ (λ _. ((tt, tt), λ _ _. refl)) (λ _. refl),
  ),
)

write_turn-keeps :
    (m f s : ℕ)
    → Ensures
        (ending m)
        (fd (pos f) ∷ stdio, s)
        (write_turn (pos f))
        (λ t _. t ≡ (fd (pos f) ∷ stdio, s))
unfolding write_turn file_wlock write_work file_unlock
write_turn-keeps m f s =
    Ensures-bind (ending m) _ (set_lock write_lock (pos f)) _ _ _ (set_lock-keeps m f s write_lock)
      λ t r same. rw same (
        Ensures-elim (ending m) (is_zero r) _ _ _ _
          (λ _. (
            (tt, tt),
            λ _ _. (
              (tt, tt),
              λ _ _.
                  Ensures-bind (ending m) _ (set_lock unlocked (pos f)) _ _ _
                    (set_lock-keeps m f s unlocked) λ t r same. same,
            ),
          ))
          (λ _. refl))

process_write-ends :
    (n s m f : ℕ)
    → m < s + n
    → 0 < n
    → Ensures
        (ending m)
        (fd (pos f) ∷ stdio, s)
        (process_write n (pos f))
        (λ t r. (t.0 ≡ fd (pos f) ∷ stdio) × (r ≢ none))
unfolding process_write
process_write-ends zero s m f h some_left = absurd (omega arith)
process_write-ends (suc zero) s m f h some_left = (
  (tt, tt),
  elim [ true ↦ λ _. (refl, λ x. cc) | false ↦ λ d. absurd (ground (arith, d.1 (omega arith))) ],
)
process_write-ends (suc (suc n)) s m f h some_left = (
  (tt, tt),
  elim [
    | true ↦ λ _. (refl, λ x. cc)
    | false ↦ λ _.
        Ensures-bind (ending m) _ (write_turn (pos f)) _ _ _ (write_turn-keeps m f (suc s))
          λ t _ same.
            rw same
              ((tt, tt), λ _ _. process_write-ends (suc n) (suc s) m f (omega arith) (omega arith))
  ],
)

read_turn-keeps :
    (m f s : ℕ)
    → Ensures
        (ending m)
        (fd (pos f) ∷ stdio, s)
        (read_turn (pos f))
        (λ t _. t ≡ (fd (pos f) ∷ stdio, s))
unfolding read_turn file_rlock read_work file_unlock
read_turn-keeps m f s =
    Ensures-bind (ending m) _ (set_lock read_lock (pos f)) _ _ _ (set_lock-keeps m f s read_lock)
      λ t r same. rw same (
        Ensures-elim (ending m) (is_zero r) _ _ _ _
          (λ _. (
            (tt, tt),
            λ _ _. (
              (tt, tt),
              λ _ _.
                  Ensures-bind (ending m) _ (set_lock unlocked (pos f)) _ _ _
                    (set_lock-keeps m f s unlocked) λ t r same. same,
            ),
          ))
          (λ _. refl))

process_read-ends :
    (n s m f : ℕ)
    → m < s + n
    → 0 < n
    → Ensures
        (ending m)
        (fd (pos f) ∷ stdio, s)
        (process_read n (pos f))
        (λ t r. (t.0 ≡ fd (pos f) ∷ stdio) × (r ≢ none))
unfolding process_read
process_read-ends zero s m f h some_left = absurd (omega arith)
process_read-ends (suc zero) s m f h some_left = (
  (tt, tt),
  elim [ true ↦ λ _. (refl, λ x. cc) | false ↦ λ d. absurd (ground (arith, d.1 (omega arith))) ],
)
process_read-ends (suc (suc n)) s m f h some_left = (
  (tt, tt),
  elim [
    | true ↦ λ _. (refl, λ x. cc)
    | false ↦ λ _.
        Ensures-bind (ending m) _ (read_turn (pos f)) _ _ _ (read_turn-keeps m f (suc s))
          λ t _ same.
            rw same
              ((tt, tt), λ _ _. process_read-ends (suc n) (suc s) m f (omega arith) (omega arith))
  ],
)

leave-closes :
    (m f : ℕ) (body : Io (Option (Unit {0})))
    → Ensures
        (ending m)
        (fd (pos f) ∷ stdio, 0)
        body
        (λ t r. (t.0 ≡ fd (pos f) ∷ stdio) × (r ≢ none))
    → Ensures
        (ending m)
        (fd (pos f) ∷ stdio, 0)
        (after body (leave (pos f)))
        (λ t r. (t.0 ≡ stdio) × (r ≡ some (pos 0)))
unfolding leave
leave-closes m f body h = Ensures-bind (ending m) _ body _ _ _ h λ t. elim [
  | none ↦ λ g. absurd (g.1 refl)
  | some _ ↦ λ g. rw g.0 ((ground arith, tt), λ _ _. ((tt, tt), λ _ _. (ground arith, refl)))
]

-- If each process reads the flag as set at its read number `m` at the latest, `m + 1` rounds are
-- enough: whatever calls fail, `main` returns in both processes, with 0 or -1, and where it returns 0
-- it has closed its descriptor, once, and used it for nothing after.
pub file_lock_main_total :
    (n m : ℕ)
    → m < n
    → Ensures
        (ending m)
        (stdio, 0)
        (main n)
        (λ t r. ((t.0 ≡ stdio) × (r ≡ some (pos 0))) ⊎ (r ≡ some minus_one))
unfolding main register_signal share
file_lock_main_total n m h = (
  (tt, tt),
  λ _ _. (
    (tt, tt),
    λ _ _. (
      (tt, tt),
      λ _ _. (
        (tt, tt),
        λ _ _. (
          (tt, tt),
          λ _ _. (
            (tt, tt),
            λ _ _. (
              (tt, tt),
              λ _ _. (
                (tt, tt),
                elim [
                  | negsuc k ↦ λ _. ((tt, tt), λ _ _. inr refl)
                  | pos f ↦ λ _. (
                    (tt, tt),
                    λ pid _.
                        Ensures-elim (ending m) (is_error pid) _ _ _ _
                          (λ _. ((tt, tt), λ _ _. inr refl))
                          λ _.
                            Ensures_mono (ending m) _
                              (after
                                (elim (is_zero pid) [
                                  | true ↦ process_write n (pos f)
                                  | false ↦ process_read n (pos f)
                                ])
                                (leave (pos f)))
                              _ _
                              (leave-closes m f _ (
                                Ensures-elim (ending m) (is_zero pid) _ _ _ _
                                  (λ _. process_write-ends n 0 m f (omega arith) (omega arith))
                                  (λ _. process_read-ends n 0 m f (omega arith) (omega arith))))
                              λ t r g. inl g,
                  )
                ],
              ),
            ),
          ),
        ),
      ),
    ),
  ),
)
