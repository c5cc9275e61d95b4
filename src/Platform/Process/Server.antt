-- ===== src/Platform/Process/Server.antt =====
-- What a program must be for its process to stop soon after a signal: each of its threads reads the
-- quit flag often, and its loops end for no other reason than the flag, an error or the peer.
use linux_tutorial.Prelude.{
  ℕ, ◌+◌, ◌*◌, ◌<◌, ◌≤◌, ◌≡◌, true, false, Option, List, [], ◌∷◌, length, arith,
}
use linux_tutorial.Prelude.Int.{ℤ}
use linux_tutorial.Prog.Logic.{Ensures}
use linux_tutorial.Platform.{Io, Session}
use linux_tutorial.Platform.Resources.{stdio}
use linux_tutorial.Platform.Process.{Thread, Shared, Reach}
use linux_tutorial.Platform.Process.Prompt.{prompt}
use linux_tutorial.Platform.Process.Ending.{
  Lasts, AllLast, any_ran_out, AllLast→any_ran_out, Reach-AllLast,
}
use linux_tutorial.Platform.Process.Hurry.{Reach-stops}

-- The programs of the main thread and of a session's, by their rounds; what a session costs from its
-- start, and what any thread spends between two reads of the flag.
pub record Server : Type 0 where
  pub main : ℕ → Io (Option ℤ)
  pub session : ℕ → Session → Io (Option ℤ)
  pub session_cost : ℕ
  pub budget : ℕ
  pub cheap : session_cost ≤ budget
  pub main_prompt : (n : ℕ) → Ensures (prompt session_cost budget) budget (main n) (λ _ _. Unit)
  pub session_prompt :
      (n : ℕ) (e : Session)
      → Ensures (prompt session_cost budget) session_cost (session n e) (λ _ _. Unit)
  pub main_lasts : (n most : ℕ) → most < n → Lasts most 0 (main n)
  pub session_lasts : (n most : ℕ) → most < n → (e : Session) → Lasts most 0 (session n e)

abbrev pub started : Shared
started = record { quit = false; table = stdio }

-- The program at its start.
abbrev pub main_thread : Io (Option ℤ) → Thread
main_thread p = record { program = p; owns = stdio; keeps = stdio }

-- Once the flag is set the process makes no more moves than its threads' budgets allow, and no loop
-- comes to the end of its rounds.
pub Server-stops :
    (v : Server) (n m : ℕ) {k : ℕ} {s : Shared} {ts : List Thread} {k' : ℕ} {s' : Shared}
    {ts' : List Thread}
    → Reach (v.session m) started (main_thread (v.main n) ∷ []) k s ts
    → s.quit ≡ true
    → Reach (v.session m) s ts k' s' ts'
    → k + v.budget * length ts < n
    → k + v.budget * length ts < m
    → (k' ≤ v.budget * length ts) × (any_ran_out ts' ≡ false)
Server-stops v n m {k} {s} {ts} {k'} {s'} {ts'} reached e later enough enough' =
    let most : ℕ = k + v.budget * length ts in
    let few : k' ≤ v.budget * length ts =
      Reach-stops v.session_cost v.budget (v.session m) v.cheap (v.session_prompt m)
        (v.budget, omega arith, v.main_prompt n, tt) reached e later in
    let lasts = v.session_lasts m most (omega arith) in
    let last : AllLast most (k' + (k + 0)) ts' =
      Reach-AllLast most (v.session m) lasts (k + 0) (omega arith)
        (Reach-AllLast most (v.session m) lasts 0 (omega arith)
          (0, omega arith, v.main_lasts n most enough, tt) reached)
        later in
    (few, AllLast→any_ran_out most (k' + (k + 0)) ts' last)
