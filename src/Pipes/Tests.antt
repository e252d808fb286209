-- ===== src/Pipes/Tests.antt =====
-- Pipes over an epoll that is a table: a history and the theorems at it.
use coroutines.Base.{
  ℕ, ◌≡◌, ◌≢◌, refl, ap, ◌∙◌, true, false, Option, none, some, [], ◌∷◌, ok, err, null_deref, ◌==◌,
  arith,
}
use coroutines.Awaiters.{update_at}
use coroutines.Pipes.Core.{
  no_flags, Event, Epoll, read, running, suspended, resumed, IoContext, event_flags,
  register_handle, set_awaiter, await_suspend_read, io_ready_callback, process_event,
  process_n_events, await_resume,
}
use coroutines.Pipes.Ready.{
  registers, reads, rounds, Reach, start, later, never_ready, registered-null,
}

abbrev Table : Type 0
Table = ℕ → Option Event

abbrev changed : Option Event → Table → ℕ → Option Event → Option Table
changed none e fd ev = none
changed (some old) e fd ev = some (update_at e fd ev)

update_at_self : (e : Table) (fd : ℕ) (o : Option Event) → update_at e fd o fd ≡ o
update_at_self e fd o = let here : (fd == fd) ≡ true = ground arith in rw here

update_at_other : (e : Table) (fd x : ℕ) (o : Option Event) → x ≢ fd → update_at e fd o x ≡ e x
update_at_other e fd x o h = let miss : (x == fd) ≡ false = ground (arith, h) in rw miss

changed-table :
    (old : Option Event) (e e' : Table) (fd : ℕ) (o : Option Event)
    → changed old e fd o ≡ some e'
    → e' ≡ update_at e fd o
changed-table none e e' fd o p = cc p
changed-table (some old) e e' fd o p = cc p

some-eq : {A : Type 0} {a b : A} → some a ≡ some b → b ≡ a
some-eq p = cc p

read_self : (e e' : Table) (fd : ℕ) (o : Option Event) → e' ≡ update_at e fd o → e' fd ≡ o
read_self e e' fd o p = ap (λ (t : Table). t fd) p ∙ update_at_self e fd o

read_other :
    (e e' : Table) (fd : ℕ) (o : Option Event) (x : ℕ) → e' ≡ update_at e fd o → x ≢ fd → e' x ≡ e x
read_other e e' fd o x p h = ap (λ (t : Table). t x) p ∙ update_at_other e fd x o h

-- `EPOLL_CTL_MOD` and `EPOLL_CTL_DEL` want a descriptor that is registered.
abbrev table : Epoll Table
table = record {
  registered = λ e fd. e fd;
  add = λ e fd ev. some (update_at e fd (some ev));
  modify = λ e fd ev. changed (e fd) e fd (some ev);
  delete = λ e fd. changed (e fd) e fd none;
  add_sets = λ {e} {e'} {fd} {ev} p. read_self e e' fd (some ev) (some-eq p);
  add_others = λ {e} {e'} {fd} {ev} x p h. read_other e e' fd (some ev) x (some-eq p) h;
  modify_sets = λ {e} {e'} {fd} {ev} p.
      read_self e e' fd (some ev) (changed-table (e fd) e e' fd (some ev) p);
  modify_others = λ {e} {e'} {fd} {ev} x p h.
      read_other e e' fd (some ev) x (changed-table (e fd) e e' fd (some ev) p) h;
  delete_clears = λ {e} {e'} {fd} p. read_self e e' fd none (changed-table (e fd) e e' fd none p);
  delete_others =
      λ {e} {e'} {fd} x p h. read_other e e' fd none x (changed-table (e fd) e e' fd none p) h;
}

program : Unit {0}
unfolding register_handle set_awaiter await_suspend_read io_ready_callback process_event
    process_n_events
program = tt

abbrev idle : IoContext Table
idle = record { epoll_instance = λ fd. none; phase = λ a. running }

-- A handle is registered, a coroutine reads from it, and the other end hangs up.
abbrev opened : IoContext Table
opened = record idle {
  epoll_instance =
      update_at (λ fd. none) 3 (some (record { events = event_flags read; ptr = none }));
}

abbrev waits : IoContext Table
waits = record {
  epoll_instance =
      update_at opened.epoll_instance 3 (some (record { events = no_flags; ptr = some 9 }));
  phase = update_at idle.phase 9 suspended;
}

abbrev hung_up : Event
hung_up = record { events = record no_flags { epollhup = true }; ptr = some 9 }

abbrev failed_read : IoContext Table
failed_read = record waits { phase = update_at waits.phase 9 (resumed 1) }

failed_read-Reach : Reach table idle failed_read
unfolding program
failed_read-Reach = later (later (later start (registers 3 read refl)) (reads 3 9 refl)) (
    rounds (hung_up ∷ [])
      (
        record {
          fd = 3;
          wanted = record { events = no_flags; ptr = some 9 };
          is_registered = refl;
          same_ptr = refl;
          in_wanted = λ p. p;
          out_wanted = λ p. p;
        },
        tt,
      )
      refl)

never_ready_example : failed_read.phase 9 ≢ resumed 0
never_ready_example = never_ready table (λ fd. refl) (λ a. refl) failed_read-Reach 9

-- The other end writes before a coroutine reads.
registered-null_run :
    process_n_events (record { events = event_flags read; ptr = none } ∷ []) opened ≡ err null_deref
unfolding program
registered-null_run =
    registered-null table 3 read (record { events = event_flags read; ptr = none }) [] idle
      (record {
        fd = 3;
        wanted = record { events = event_flags read; ptr = none };
        is_registered = refl;
        same_ptr = refl;
        in_wanted = λ p. p;
        out_wanted = λ p. p;
      })
      refl refl refl

resumed_run : await_resume 0 (some 64) ≡ ok 64
resumed_run = refl
