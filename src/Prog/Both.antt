-- ===== src/Prog/Both.antt =====
-- Two monitors at once: what each ensures, both ensure together.
use linux_tutorial.Prog.{Prog, ret, call}
use linux_tutorial.Prog.Logic.{Monitor, Ensures}

module _ {C : Type 0} {R : C → Type 0} (M N : Monitor C R) where
  abbrev pub both : Monitor C R
  both = record {
    State = M.State × N.State;
    Allowed = λ (s, t) c. M.Allowed s c × N.Allowed t c;
    Documented = λ (s, t) c r. M.Documented s c r × N.Documented t c r;
    next = λ (s, t) c r. (M.next s c r, N.next t c r);
  }

  pub Ensures-both :
      {A : Type 0} (p : Prog C R A) (s : M.State) (t : N.State) (P : M.State → A → Type 0)
      (Q : N.State → A → Type 0)
      → Ensures M s p P
      → Ensures N t p Q
      → Ensures both (s, t) p (λ (s', t') a. P s' a × Q t' a)
  Ensures-both (ret a) s t P Q g h = (g, h)
  Ensures-both (call c k) s t P Q g h = (
    (g.0, h.0),
    λ r d. Ensures-both (k r) (M.next s c r) (N.next t c r) P Q (g.1 r d.0) (h.1 r d.1),
  )
