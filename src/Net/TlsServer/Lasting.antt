-- ===== src/Net/TlsServer/Lasting.antt =====
-- The loops of net/tls_server.c have rounds left as long as few calls were made.
use linux_tutorial.Prelude.{ℕ, zero, suc, ◌+◌, ◌<◌, ◌≤◌, ◌≢◌, refl, none, some, true, false, arith}
use linux_tutorial.Prelude.Int.{ℤ}
use linux_tutorial.Prog.Logic.{Ensures, Ensures-bind, Ensures-elim}
use linux_tutorial.Platform.{is_zero, is_error, is_positive, is_null}
use linux_tutorial.Platform.Process.Rounds.{at_most}
use linux_tutorial.Net.TlsServer.{
  TlsSession, session_loop, quit_session, session_process_thread, start_session, accept_loop, serve,
  give_up, load_certificate, main,
}

session_loop-lasts :
    (n made most : ℕ) (e : TlsSession)
    → made ≤ most
    → most < made + n
    → Ensures (at_most most) made (session_loop n e) (λ _ r. r ≢ none)
unfolding session_loop
session_loop-lasts zero made most e h enough = absurd (omega arith)
session_loop-lasts (suc n) made most e h enough = (
  tt,
  elim [
    | true ↦ λ _ x. cc
    | false ↦ λ _. (
      tt,
      λ _ _. (
        tt,
        λ r _.
            Ensures-elim (at_most most) (is_error r.size) _ _ _ _ (λ _. (tt, λ _ _ x. cc))
              λ _.
                Ensures-elim (at_most most) (is_zero r.size) _ _ _ _ (λ _. (tt, λ _ _ x. cc))
                  λ _. (tt, λ _ few. session_loop-lasts n _ most e few (omega arith)),
      ),
    )
  ],
)

quit_session-lasts :
    (made most : ℕ) (e : TlsSession)
    → Ensures (at_most most) made (quit_session e) (λ _ r. r ≢ none)
unfolding quit_session
quit_session-lasts made most e = (tt, λ _ _. (tt, λ _ _. (tt, λ _ _. (tt, λ _ _ x. cc))))

pub session_process_thread-lasts :
    (n most : ℕ) (e : TlsSession)
    → most < n
    → Ensures (at_most most) 0 (session_process_thread n e) (λ _ r. r ≢ none)
unfolding session_process_thread
session_process_thread-lasts n most e enough = (
  tt,
  λ _ _. (
    tt,
    λ ssl _. (
      tt,
      λ _ _. (
        tt,
        λ _ _. (
          tt,
          λ accepted few.
              Ensures-elim (at_most most) (is_error accepted) _ _ _ _
                (λ _. quit_session-lasts _ most (record e { ssl = ssl }))
                λ _.
                  Ensures-bind (at_most most) 5 (session_loop n (record e { ssl = ssl })) _
                    (λ _ r. r ≢ none) _
                    (session_loop-lasts n 5 most (record e { ssl = ssl }) few (omega arith))
                    λ t. elim [
                      | none ↦ λ h. absurd (h refl)
                      | some _ ↦ λ _. (
                        tt,
                        λ _ _. (tt, λ _ _. quit_session-lasts _ most (record e { ssl = ssl })),
                      )
                    ],
        ),
      ),
    ),
  ),
)

start_session-lasts :
    (made most x : ℕ) (c : ℤ)
    → made ≤ most
    → Ensures (at_most most) made (start_session x c) (λ t _. (made ≤ t) × (t ≤ most))
unfolding start_session
start_session-lasts made most x c h = (
  tt,
  λ _ _. (
    tt,
    λ _ _. (
      tt,
      λ _ _. (
        tt,
        λ created d.
            Ensures-elim (at_most most) (is_zero created) _ _ _ _ (λ _. (omega arith, d))
              λ _. (tt, λ _ _. (tt, λ _ _. (tt, λ _ _. (tt, λ _ d'. (omega arith, d'))))),
      ),
    ),
  ),
)

accept_loop-lasts :
    (n made most x : ℕ) (f : ℤ)
    → made ≤ most
    → most < made + n
    → Ensures (at_most most) made (accept_loop n x f) (λ _ r. r ≢ none)
unfolding accept_loop
accept_loop-lasts zero made most x f h enough = absurd (omega arith)
accept_loop-lasts (suc n) made most x f h enough = (
  tt,
  elim [
    | true ↦ λ _ x. cc
    | false ↦ λ _. (
      tt,
      λ c few.
          Ensures-bind (at_most most) (suc (suc made)) _ _
            (λ t _. (suc (suc made) ≤ t) × (t ≤ most)) _
            (Ensures-elim (at_most most) (is_positive c) _ _ _ _
              (λ _. start_session-lasts (suc (suc made)) most x c few)
              λ _. (tt, λ _ d. (omega arith, d)))
            λ t _ (more, le). (tt, λ _ d. accept_loop-lasts n (suc t) most x f d (omega arith)),
    )
  ],
)

serve-lasts :
    (n made most c : ℕ) (f : ℤ)
    → most < n
    → made ≤ most
    → Ensures (at_most most) made (serve n c f) (λ _ r. r ≢ none)
unfolding serve
serve-lasts n made most c f enough h = (
  tt,
  λ bound _.
      Ensures-elim (at_most most) (is_zero bound) _ _ _ _
        (λ _. (
          tt,
          λ listening _.
              Ensures-elim (at_most most) (is_zero listening) _ _ _ _
                (λ _. (
                  tt,
                  λ _ d.
                      Ensures-bind (at_most most) _ (accept_loop n c f) _ (λ _ r. r ≢ none) _
                        (accept_loop-lasts n (suc (suc (suc made))) most c f d (omega arith))
                        λ t. elim [
                          | none ↦ λ x. absurd (x refl)
                          | some _ ↦ λ _. (tt, λ _ _. (tt, λ _ _ x. cc))
                        ],
                ))
                (λ _. (tt, λ _ _. (tt, λ _ _ x. cc))),
        ))
        (λ _. (tt, λ _ _. (tt, λ _ _ x. cc))),
)

give_up-lasts : (made most : ℕ) → Ensures (at_most most) made give_up (λ _ r. r ≢ none)
give_up-lasts made most = (tt, λ _ _ x. cc)

pub main-lasts : (n most : ℕ) → most < n → Ensures (at_most most) 0 (main n) (λ _ r. r ≢ none)
unfolding main load_certificate
main-lasts n most enough = (
  tt,
  λ _ _. (
    tt,
    λ _ _. (
      tt,
      λ _ _. (
        tt,
        λ _ _. (
          tt,
          λ _ _. (
            tt,
            λ _ _. (
              tt,
              λ _ _. (
                tt,
                λ _ _. (
                  tt,
                  λ _ _. (
                    tt,
                    λ _ _. (
                      tt,
                      λ c _.
                          Ensures-elim (at_most most) (is_null c) _ _ _ _
                            (λ _. give_up-lasts _ most)
                            λ _. (
                              tt,
                              λ cert _.
                                  Ensures-elim (at_most most) (is_positive cert) _ _ _ _
                                    (λ _. (
                                      tt,
                                      λ key _.
                                          Ensures-elim (at_most most) (is_positive key) _ _ _ _
                                            (λ _. (
                                              tt,
                                              λ checked _.
                                                  Ensures-elim (at_most most) (is_zero checked) _ _
                                                    _ _ (λ _. give_up-lasts _ most)
                                                    λ _. (
                                                      tt,
                                                      λ f d. serve-lasts n 15 most c f enough d,
                                                    ),
                                            ))
                                            (λ _. give_up-lasts _ most),
                                    ))
                                    (λ _. give_up-lasts _ most),
                            ),
                    ),
                  ),
                ),
              ),
            ),
          ),
        ),
      ),
    ),
  ),
)
