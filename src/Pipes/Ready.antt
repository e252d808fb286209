-- ===== src/Pipes/Ready.antt =====
-- applications/pipes/nix-pipe: what wakes the coroutines that read and write.
use coroutines.Base.{
  ℕ, ◌≤◌, ◌≡◌, ◌≢◌, refl, sym, ap, ◌∙◌, subst, ◌⊎◌, inl, inr, Bool, true, false, Bool-cases, ◌||◌,
  Option, none, some, List, [], ◌∷◌, ok, err, null_deref, >>=-eq-ok, ◌==◌, ==_iff, arith,
}
use coroutines.Awaiters.{update_at}
use coroutines.Pipes.Core.{
  Flags, no_flags, Event, Epoll, IsReported, IoInterest, Phase, running, suspended, resumed,
  IoContext, checked, event_flags, Written, would_block, failed, wrote, register_handle,
  unregister_handle, set_awaiter, await_suspend_read, await_suspend_write, resume_awaiting,
  io_ready_callback, process_event, process_n_events,
}

abbrev pub AllReported : {E : Type 0} → Epoll E → E → List Event → Type 0
AllReported epoll e [] = Unit
AllReported epoll e (event ∷ events) = IsReported epoll e event × AllReported epoll e events

-- A resumption with the error code of a handle that is ready.
abbrev pub IsReady : Phase → Type 0
IsReady p = p ≡ resumed 0

abbrev code_of : Phase → ℕ
code_of running = 0
code_of suspended = 0
code_of (resumed c) = c

||-cases : (a b : Bool) → a || b ≡ true → (a ≡ true) ⊎ (b ≡ true)
||-cases true b e = inl refl
||-cases false b e = inr e

ok-eq : {A : Type 0} {a b : A} → ok a ≡ ok b → a ≡ b
ok-eq e = cc e

module _ {E : Type 0} (epoll : Epoll E) where
  -- The operations on pipes, and rounds of `process_events`. Nothing happens after a fault.
  pub data Step (s : IoContext E) : IoContext E → Type 0 where
    registers :
        (fd : ℕ) (interest : IoInterest) {t : IoContext E}
        → register_handle epoll fd interest s ≡ ok t
        → Step s t
    unregisters : (fd : ℕ) {t : IoContext E} → unregister_handle epoll fd s ≡ ok t → Step s t
    reads :
        (fd awaiter : ℕ) {t : IoContext E} → await_suspend_read epoll fd awaiter s ≡ ok t → Step s t
    writes :
        (fd awaiter : ℕ) (answer : Written) {t : IoContext E}
        → await_suspend_write epoll fd awaiter answer s ≡ ok t
        → Step s t
    rounds :
        (events : List Event) {t : IoContext E}
        → AllReported epoll s.epoll_instance events
        → process_n_events events s ≡ ok t
        → Step s t

  pub data Reach (s : IoContext E) : IoContext E → Type 0 where
    start : Reach s s
    later : {t u : IoContext E} → Reach s t → Step t u → Reach s u

  -- A descriptor with an awaiter is registered with no events.
  IsQuiet : E → Type 0
  IsQuiet e =
      (fd : ℕ) (event : Event)
      → epoll.registered e fd ≡ some event
      → (event.ptr ≡ none) ⊎ (event.events ≡ no_flags)

  record IsSound (s : IoContext E) : Type 0 where
    quiet : IsQuiet s.epoll_instance
    asleep : (a : ℕ) → ¬ IsReady (s.phase a)

  set-IsQuiet :
      {e e' : E} (fd : ℕ) (event : Event)
      → epoll.registered e' fd ≡ some event
      → ((x : ℕ) → x ≢ fd → epoll.registered e' x ≡ epoll.registered e x)
      → (event.ptr ≡ none) ⊎ (event.events ≡ no_flags)
      → IsQuiet e
      → IsQuiet e'
  unfolding IsQuiet
  set-IsQuiet {e} {e'} fd event here others good q x ev r = elim (Bool-cases (x == fd)) [
    | inl hit ↦
        let same : x ≡ fd = (==_iff x fd).0 hit in
        let p : event ≡ ev = cc (here, r, ap (epoll.registered e') same) in
        subst (λ (v : Event). (v.ptr ≡ none) ⊎ (v.events ≡ no_flags)) p good
    | inr miss ↦ q x ev (sym (others x (λ p. ground (arith, p, miss))) ∙ r)
  ]

  clear-IsQuiet :
      {e e' : E} (fd : ℕ)
      → epoll.registered e' fd ≡ none
      → ((x : ℕ) → x ≢ fd → epoll.registered e' x ≡ epoll.registered e x)
      → IsQuiet e
      → IsQuiet e'
  unfolding IsQuiet
  clear-IsQuiet {e} {e'} fd here others q x ev r = elim (Bool-cases (x == fd)) [
    | inl hit ↦
        let same : x ≡ fd = (==_iff x fd).0 hit in cc (here, r, ap (epoll.registered e') same)
    | inr miss ↦ q x ev (sym (others x (λ p. ground (arith, p, miss))) ∙ r)
  ]

  checked-some : {A : Type 0} (o : Option A) {a : A} → checked o ≡ ok a → o ≡ some a
  checked-some none e = cc e
  checked-some (some b) e = cc e

  set_awaiter-IsSound :
      (fd awaiter : ℕ) (s : IoContext E) {t : IoContext E}
      → set_awaiter epoll fd awaiter s ≡ ok t
      → IsSound s
      → IsSound t
  unfolding set_awaiter
  set_awaiter-IsSound fd awaiter s r v =
      let (e', done, same) = >>=-eq-ok _ _ r in
      let set = checked-some _ done in
      subst IsSound (cc same) record {
        quiet =
            set-IsQuiet fd _ (epoll.modify_sets set) (λ x. epoll.modify_others x set) (inr refl)
              v.quiet;
        asleep = v.asleep;
      }

  phase-IsSound :
      (s : IoContext E) (a : ℕ) (p : Phase)
      → ¬ IsReady p
      → IsSound s
      → IsSound (record s { phase = update_at s.phase a p })
  phase-IsSound s a p h v = record {
    quiet = v.quiet;
    asleep =
        λ x. elim (Bool-cases (x == a)) [ inl hit ↦ rw hit h | inr miss ↦ rw miss (v.asleep x) ];
  }

  resumed-code : (p q : Phase) (code : ℕ) → resume_awaiting p code ≡ ok q → q ≡ resumed code
  resumed-code running q code e = cc e
  resumed-code suspended q code e = cc e
  resumed-code (resumed c) q code e = cc e

  callback-IsSound :
      (me : Option ℕ) (code : ℕ) (s : IoContext E) {t : IoContext E}
      → io_ready_callback me code s ≡ ok t
      → 1 ≤ code
      → IsSound s
      → IsSound t
  unfolding io_ready_callback
  callback-IsSound none code s e l v = cc e
  callback-IsSound (some me) code s e l v =
      let (q, woken, same) = >>=-eq-ok (resume_awaiting (s.phase me) code) _ e in
      let p = resumed-code (s.phase me) q code woken in
      subst IsSound (cc same)
        (phase-IsSound s me q (λ z. absurd (omega (arith, ap code_of p, ap code_of z, l))) v)

  callback-null :
      (me : Option ℕ) (code : ℕ) (s : IoContext E)
      → me ≡ none
      → io_ready_callback me code s ≡ err null_deref
  unfolding io_ready_callback
  callback-null me code s e = rw e

  process_event-IsSound :
      (event : Event) (s : IoContext E) {t : IoContext E}
      → IsReported epoll s.epoll_instance event
      → process_event event s ≡ ok t
      → IsSound s
      → IsSound t
  unfolding process_event IsQuiet
  process_event-IsSound event s {t} r e v =
      elim (Bool-cases (event.events.epollin || event.events.epollout)) [
        | inl ready ↦ elim (v.quiet r.fd r.wanted r.is_registered) [
          | inl null_ptr ↦ cc (rw ready at e, callback-null event.ptr 0 s (r.same_ptr ∙ null_ptr))
          | inr no_events ↦ elim (||-cases event.events.epollin event.events.epollout ready) [
            | inl p ↦ cc (r.in_wanted p, ap (λ (f : Flags). f.epollin) no_events)
            | inr p ↦ cc (r.out_wanted p, ap (λ (f : Flags). f.epollout) no_events)
          ]
        ]
        | inr unready ↦ elim (Bool-cases (event.events.epollhup || event.events.epollerr)) [
          | inl broken ↦ callback-IsSound event.ptr 1 s (rw (unready, broken) at e) (omega arith) v
          | inr nothing ↦ subst IsSound (cc (rw (unready, nothing) at e)) v
        ]
      ]

  callback-instance :
      (me : Option ℕ) (code : ℕ) (s : IoContext E) {t : IoContext E}
      → io_ready_callback me code s ≡ ok t
      → t.epoll_instance ≡ s.epoll_instance
  unfolding io_ready_callback
  callback-instance none code s e = cc e
  callback-instance (some me) code s e =
      let (q, woken, same) = >>=-eq-ok (resume_awaiting (s.phase me) code) _ e in
      ap (λ (u : IoContext E). u.epoll_instance) (sym (ok-eq same))

  -- `process_events` reads what `epoll_wait` reported for the instance before the loop.
  process_event-instance :
      (event : Event) (s : IoContext E) {t : IoContext E}
      → process_event event s ≡ ok t
      → t.epoll_instance ≡ s.epoll_instance
  unfolding process_event
  process_event-instance event s e =
      elim (Bool-cases (event.events.epollin || event.events.epollout)) [
        | inl ready ↦ callback-instance event.ptr 0 s (rw ready at e)
        | inr unready ↦ elim (Bool-cases (event.events.epollhup || event.events.epollerr)) [
          | inl broken ↦ callback-instance event.ptr 1 s (rw (unready, broken) at e)
          | inr nothing ↦
              ap (λ (u : IoContext E). u.epoll_instance) (sym (ok-eq (rw (unready, nothing) at e)))
        ]
      ]

  process_n_events-IsSound :
      (events : List Event) (s : IoContext E) {t : IoContext E}
      → AllReported epoll s.epoll_instance events
      → process_n_events events s ≡ ok t
      → IsSound s
      → IsSound t
  unfolding process_n_events
  process_n_events-IsSound [] s r e v = subst IsSound (cc e) v
  process_n_events-IsSound (event ∷ events) s r e v =
      let (s', one_done, e') = >>=-eq-ok (process_event event s) _ e in
      let same = process_event-instance event s one_done in
      process_n_events-IsSound events s' (subst (λ k. AllReported epoll k events) (sym same) r.1) e'
        (process_event-IsSound event s r.0 one_done v)

  Step-IsSound : {s t : IoContext E} → Step s t → IsSound s → IsSound t
  unfolding register_handle unregister_handle await_suspend_read await_suspend_write
  Step-IsSound {s} (registers fd interest r) v =
      let (e', done, same) = >>=-eq-ok _ _ r in
      let set = checked-some _ done in
      subst IsSound (cc same) record {
        quiet =
            set-IsQuiet fd _ (epoll.add_sets set) (λ x. epoll.add_others x set) (inl refl) v.quiet;
        asleep = v.asleep;
      }
  Step-IsSound {s} (unregisters fd r) v =
      let (e', done, same) = >>=-eq-ok _ _ r in
      let cleared = checked-some _ done in
      subst IsSound (cc same) record {
        quiet =
            clear-IsQuiet fd (epoll.delete_clears cleared) (λ x. epoll.delete_others x cleared)
              v.quiet;
        asleep = v.asleep;
      }
  Step-IsSound {s} (reads fd a r) v =
      let (s', set, same) = >>=-eq-ok (set_awaiter epoll fd a s) _ r in
      subst IsSound (cc same)
        (phase-IsSound s' a suspended (λ z. cc z) (set_awaiter-IsSound fd a s set v))
  Step-IsSound {s} (writes fd a would_block r) v =
      let (s', set, same) = >>=-eq-ok (set_awaiter epoll fd a s) _ r in
      subst IsSound (cc same)
        (phase-IsSound s' a suspended (λ z. cc z) (set_awaiter-IsSound fd a s set v))
  Step-IsSound {s} (writes fd a failed r) v =
      let (s', set, same) = >>=-eq-ok (set_awaiter epoll fd a s) _ r in cc same
  Step-IsSound {s} (writes fd a (wrote n) r) v =
      let (s', set, same) = >>=-eq-ok (set_awaiter epoll fd a s) _ r in
      subst IsSound (cc same) (set_awaiter-IsSound fd a s set v)
  Step-IsSound {s} (rounds events r e) v = process_n_events-IsSound events s r e v

  Reach-IsSound : {s t : IoContext E} → Reach s t → IsSound s → IsSound t
  Reach-IsSound start v = v
  Reach-IsSound (later r st) v = Step-IsSound st (Reach-IsSound r v)

  -- Over an epoll that reports a descriptor only with flags that it is registered with, or
  -- EPOLLHUP and EPOLLERR, in every history of reads, writes, registrations and rounds of
  -- `process_events` that starts with no descriptor registered and every coroutine running, no
  -- suspended coroutine is ever resumed because its handle is ready, with error code 0.
  pub never_ready :
      {s t : IoContext E}
      → ((fd : ℕ) → epoll.registered s.epoll_instance fd ≡ none)
      → ((a : ℕ) → s.phase a ≡ running)
      → Reach s t
      → (a : ℕ) → t.phase a ≢ resumed 0
  unfolding IsQuiet
  never_ready {s} nothing all_run r a =
      (Reach-IsSound r record {
        quiet = λ fd event e. cc (nothing fd, e);
        asleep = λ x z. cc (all_run x, z);
      }).asleep
        a

  -- A handle that is ready before an awaiter is set.
  pub registered-null :
      (fd : ℕ) (interest : IoInterest) (event : Event) (rest : List Event) (s : IoContext E)
      {t : IoContext E} (r : IsReported epoll t.epoll_instance event)
      → register_handle epoll fd interest s ≡ ok t
      → r.fd ≡ fd
      → event.events.epollin || event.events.epollout ≡ true
      → process_n_events (event ∷ rest) t ≡ err null_deref
  unfolding register_handle process_n_events process_event
  registered-null fd interest event rest s {t} r e same_fd ready =
      let ev : Event = record { events = event_flags interest; ptr = none } in
      let (e', done, same) = >>=-eq-ok (checked (epoll.add s.epoll_instance fd ev)) _ e in
      let set : epoll.registered e' fd ≡ some ev = epoll.add_sets (checked-some _ done) in
      let here : e' ≡ t.epoll_instance = ap (λ (u : IoContext E). u.epoll_instance) (ok-eq same) in
      let found = r.is_registered in
      let wanted : r.wanted ≡ ev = cc (
        found,
        set,
        ap (λ k. epoll.registered k fd) here,
        ap (epoll.registered t.epoll_instance) same_fd,
      ) in
      let null_ptr = callback-null event.ptr 0 t (r.same_ptr ∙ ap (λ (v : Event). v.ptr) wanted) in
      rw (ready, null_ptr) refl
