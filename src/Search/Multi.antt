-- ===== src/Search/Multi.antt =====
-- applications/binary-search/state_machine.hpp: the multi-lookup against the plain searches.
use coroutines.Base.Int.{ℤ}
use coroutines.Base.{
  ℕ, zero, suc, ◌+◌, ◌-◌, ◌%◌, ◌^◌, ◌≤◌, ◌<◌, ◌≡◌, refl, sym, ap, subst, ◌∙◌, Bool, true, false,
  some, List, [], ◌∷◌, Result, ok, ◌>>=◌, at, at-total, at-lt, set, replicate, length, length-set,
  length-replicate, ltb, if◌then◌else◌, inl, inr, arith,
}
use coroutines.Search.Core.{
  vanilla_loop, vanilla_binary_search, Frame, new_frame, init, run, is_running, is_found,
}
use coroutines.Search.Machine.{searching}
use coroutines.Search.Lookups.{test_vanilla_loop, test_vanilla, vanilla_loop-Returns}
use coroutines.Search.Frames.{
  previous, restart, switch, start_lookup, start_lookups, complete_all, state_machine_multi_lookup,
}
use coroutines.Search.Pending.{
  bit, Pending, busy, goes, ends, run-Ran, Pendings, focus, new-Pendings, add_bit,
  complete_all-Pendings, idle-hits,
}
use coroutines.Search.Phases.{States, Phase, States-set, new_frames-States}

module _ (items : List ℤ) (last : ℕ) (some_items : 0 < length items) where
  init-searching :
      (key : ℤ) (f : Frame)
      → init 0 (length items) key f ≡ searching (some (length items)) 0 (length items) key
  unfolding init
  init-searching key f = ground (arith, some_items)

  init-running : (key : ℤ) (f : Frame) → is_running (init 0 (length items) key f).state ≡ true
  init-running key f = ap (λ (g : Frame). is_running g.state) (init-searching key f)

  init-Pending :
      (key : ℤ) (f : Frame) (b : Bool)
      → vanilla_loop (suc (length items)) items 0 (length items) key ≡ ok b
      → Pending items (init 0 (length items) key f) (bit b) (suc (length items))
  init-Pending key f b e =
      busy (some (length items)) 0 (length items) key b (init-searching key f) some_items
        (omega arith) (omega arith) e refl

  -- What the body of the loop over the keys leaves.
  data Started (r : Result (List Frame × ℕ × ℕ)) (total work : ℕ) : Type 0 where
    started :
        (fs : List Frame) (i result hits work' : ℕ)
        → r ≡ ok (fs, i, result)
        → Pendings items fs hits work'
        → result + hits ≡ total
        → work' ≤ work
        → length fs ≡ suc last
        → i ≤ last
        → Phase fs i
        → Started r total work

  previous_le : (i : ℕ) → i ≤ last → previous last i ≤ last
  previous_le i h = ground (arith, h)

  -- A frame that is not searching is initialized.
  restart-Phase :
      (fs : List Frame) (i : ℕ) (f : Frame)
      → i < length fs
      → is_running f.state ≡ true
      → Phase fs i
      → Phase (set fs i f) (previous last i)
  restart-Phase fs i f inside on (inl all) = inl (States-set fs i f _ _ inside all on λ j ne. refl)
  restart-Phase fs zero f inside on (inr behind) =
      inl (States-set fs 0 f _ _ inside behind on λ j ne. ground (arith, ne))
  restart-Phase fs (suc i) f inside on (inr behind) =
      inr (States-set fs (suc i) f _ _ inside behind (on ∙ ground arith) λ j ne. ground (arith, ne))

  switch-ends :
      (fuel i result : ℕ) (key : ℤ) (fs : List Frame) (f next : Frame)
      → at fs i ≡ ok f
      → run items f ≡ ok (true, next)
      → switch (suc fuel) items key last fs i result
        ≡ ok (restart items key last fs i next (if is_found next.state then result + 1 else result))
  unfolding switch
  switch-ends fuel i result key fs f next e ran = rw (e, ran)

  switch-goes :
      (fuel i result : ℕ) (key : ℤ) (fs : List Frame) (f next : Frame)
      → at fs i ≡ ok f
      → run items f ≡ ok (false, next)
      → switch (suc fuel) items key last fs i result
        ≡ switch fuel items key last (set fs i next) (previous last i) result
  unfolding switch
  switch-goes fuel i result key fs f next e ran = rw (e, ran)

  switch-Started :
      (fuel i result hits work : ℕ) (key : ℤ) (b : Bool) (fs : List Frame)
      → vanilla_loop (suc (length items)) items 0 (length items) key ≡ ok b
      → Pendings items fs hits work
      → States fs (λ _. true)
      → length fs ≡ suc last
      → i ≤ last
      → work < fuel
      → Started
          (switch fuel items key last fs i result)
          (result + hits + bit b)
          (work + suc (length items))
  switch-Started zero i result hits work key b fs answer p all long inside enough =
      absurd (omega (arith, enough))
  switch-Started (suc fuel) i result hits work key b fs answer p all long inside enough =
      let here : i < length fs = omega (arith, long, inside) in
      let (f, e) = at-total fs i here in
      let (h, w, hs, ws, p0, sum, few, change) = focus items fs i f hits work e p in
      elim (run-Ran items f h w (all i f e) p0) [
        | ends next ran off found more ↦
            let on = init-running key next in
            started (set fs i (init 0 (length items) key next)) (previous last i)
              (if is_found next.state then result + 1 else result) (bit b + hs)
              (suc (length items) + ws) (switch-ends fuel i result key fs f next e ran)
              (change _ _ _ (init-Pending key next b answer))
              (omega (arith, add_bit items (is_found next.state) result, sum, found))
              (omega (arith, few)) (length-set fs i _ ∙ long) (previous_le i inside)
              (restart-Phase fs i _ here on (inl all))
        | goes next w' ran on p' less ↦
            let on_next = States-set fs i next _ _ here all on λ j ne. refl in
            let rest =
              switch-Started fuel (previous last i) result (h + hs) (w' + ws) key b (set fs i next)
                answer (change next h w' p') on_next (length-set fs i next ∙ long)
                (previous_le i inside) (omega (arith, few, less, enough)) in
            elim rest [
              | started fs' i' result' hits' work' ran' ps total few' long' inside' phase ↦
                  started fs' i' result' hits' work'
                    (switch-goes fuel i result key fs f next e ran ∙ ran') ps
                    (omega (arith, total, sum)) (omega (arith, few', few, less)) long' inside' phase
            ]
      ]

  start-idle :
      (fuel i result : ℕ) (key : ℤ) (fs : List Frame) (f : Frame)
      → at fs i ≡ ok f
      → is_running f.state ≡ false
      → start_lookup fuel items key last fs i result ≡ ok (restart items key last fs i f result)
  unfolding start_lookup
  start-idle fuel i result key fs f e off = rw (e, ◌>>=◌, off)

  start-busy :
      (fuel i result : ℕ) (key : ℤ) (fs : List Frame) (f : Frame)
      → at fs i ≡ ok f
      → is_running f.state ≡ true
      → start_lookup fuel items key last fs i result ≡ switch fuel items key last fs i result
  unfolding start_lookup
  start-busy fuel i result key fs f e on = rw (e, ◌>>=◌, on)

  start_lookup-Started :
      (fuel i result hits work : ℕ) (key : ℤ) (b : Bool) (fs : List Frame)
      → vanilla_loop (suc (length items)) items 0 (length items) key ≡ ok b
      → Pendings items fs hits work
      → Phase fs i
      → length fs ≡ suc last
      → i ≤ last
      → work < fuel
      → Started
          (start_lookup fuel items key last fs i result)
          (result + hits + bit b)
          (work + suc (length items))
  start_lookup-Started fuel i result hits work key b fs answer p (inl all) long inside enough =
      let (f, e) = at-total fs i (omega (arith, long, inside)) in
      subst (λ r. Started r (result + hits + bit b) (work + suc (length items)))
        (sym (start-busy fuel i result key fs f e (all i f e)))
        (switch-Started fuel i result hits work key b fs answer p all long inside enough)
  start_lookup-Started fuel i result hits work key b fs answer p (inr behind) long inside enough =
      let here : i < length fs = omega (arith, long, inside) in
      let (f, e) = at-total fs i here in
      let (h, w, hs, ws, p0, sum, few, change) = focus items fs i f hits work e p in
      let off : is_running f.state ≡ false = behind i f e ∙ ground arith in
      started (set fs i (init 0 (length items) key f)) (previous last i) result (bit b + hs)
        (suc (length items) + ws) (start-idle fuel i result key fs f e off)
        (change _ _ _ (init-Pending key f b answer))
        (omega (arith, sum, idle-hits items f h w off p0)) (omega (arith, few))
        (length-set fs i _ ∙ long) (previous_le i inside)
        (restart-Phase fs i _ here (init-running key f) (inr behind))

  -- A bound for the rounds of all the lookups.
  abbrev budget : List ℤ → ℕ
  budget [] = 0
  budget (key ∷ lookups) = suc (length items) + budget lookups

  start_lookups-next :
      (fuel i result i' result' : ℕ) (key : ℤ) (lookups : List ℤ) (fs fs' : List Frame)
      → start_lookup fuel items key last fs i result ≡ ok (fs', i', result')
      → start_lookups fuel items (key ∷ lookups) last fs i result
        ≡ start_lookups fuel items lookups last fs' i' result'
  unfolding start_lookups
  start_lookups-next fuel i result i' result' key lookups fs fs' e = rw e

  test_vanilla_loop-next :
      (found : ℕ) (key : ℤ) (lookups : List ℤ) (b : Bool)
      → vanilla_loop (suc (length items)) items 0 (length items) key ≡ ok b
      → test_vanilla_loop found items (key ∷ lookups)
        ≡ test_vanilla_loop (found + bit b) items lookups
  unfolding test_vanilla_loop vanilla_binary_search
  test_vanilla_loop-next found key lookups b e =
      rw e (ap (λ n. test_vanilla_loop n items lookups) (add_bit items b found))

  start_lookups-Started :
      (fuel i result hits work total : ℕ) (lookups : List ℤ) (fs : List Frame)
      → test_vanilla_loop (result + hits) items lookups ≡ ok total
      → Pendings items fs hits work
      → Phase fs i
      → length fs ≡ suc last
      → i ≤ last
      → work + budget lookups < fuel
      → Started (start_lookups fuel items lookups last fs i result) total (work + budget lookups)
  unfolding start_lookups test_vanilla_loop
  start_lookups-Started fuel i result hits work total [] fs answer p phase long inside enough =
      started fs i result hits work refl p (ok-count answer) (omega arith) long inside phase
    where
      ok-count : {m n : ℕ} → ◌≡◌ {A = Result ℕ} (ok m) (ok n) → m ≡ n
      ok-count e = cc e
  start_lookups-Started fuel i result hits work total (key ∷ lookups) fs answer p phase long inside
        enough =
      let n = length items in
      let (b, e) = vanilla_loop-Returns (suc n) items 0 n key (omega arith) (omega arith) in
      elim (start_lookup-Started fuel i result hits work key b fs e p phase long inside
        (omega (arith, enough))) [
          | started fs' i' result' hits' work' ran p' sum few long' inside' phase' ↦
              let answer' : test_vanilla_loop (result' + hits') items lookups ≡ ok total =
                ap (λ m. test_vanilla_loop m items lookups) sum
                ∙ sym (test_vanilla_loop-next (result + hits) key lookups b e)
                ∙ answer in
              let rest =
                start_lookups-Started fuel i' result' hits' work' total lookups fs' answer' p'
                  phase' long' inside' (omega (arith, few, enough)) in
              elim rest [
                | started fs'' i'' result'' hits'' work'' ran' p'' sum' few' long'' inside''
                      phase'' ↦
                    started fs'' i'' result'' hits'' work''
                      (start_lookups-next fuel i result i' result' key lookups fs fs' ran ∙ ran')
                      p'' sum' (omega (arith, few, few')) long'' inside'' phase''
              ]
        ]

  test_vanilla_loop-total :
      (found : ℕ) (lookups : List ℤ)
      → (total : ℕ) × (test_vanilla_loop found items lookups ≡ ok total)
  unfolding test_vanilla_loop
  test_vanilla_loop-total found [] = (found, refl)
  test_vanilla_loop-total found (key ∷ lookups) =
      let n = length items in
      let (b, e) = vanilla_loop-Returns (suc n) items 0 n key (omega arith) (omega arith) in
      let (total, h) = test_vanilla_loop-total (found + bit b) lookups in
      (total, test_vanilla_loop-next found key lookups b e ∙ h)

  -- The lookups from frames that have not searched yet, to the end.
  lookups_complete :
      (rounds fuel total : ℕ) (lookups : List ℤ) (fs : List Frame)
      → test_vanilla_loop 0 items lookups ≡ ok total
      → Pendings items fs 0 0
      → States fs (ltb last)
      → length fs ≡ suc last
      → budget lookups < rounds
      → budget lookups < fuel
      → (do
        (frames, i, result) ← start_lookups fuel items lookups last fs last 0
        complete_all rounds items frames result)
        ≡ ok total
  lookups_complete rounds fuel total lookups fs answer p fresh long most enough =
      let begun : Started (start_lookups fuel items lookups last fs last 0) total
          (0 + budget lookups) =
        start_lookups-Started fuel last 0 0 0 total lookups fs answer p (inr fresh) long
          (omega arith) (omega (arith, enough)) in
      elim begun [
        | started fs' i' result hits work' ran p' sum few long' inside' phase' ↦ rw ran (
            complete_all-Pendings items rounds fs' result hits work' p' (omega (arith, few, most))
            ∙ ap ok sum)
      ]

-- With at least one stream, fewer than 2 ^ 64, on every dataset that is not empty and all lookups,
-- there is a fuel above which `state_machine_multi_lookup` ends without a fault and returns the
-- number that `test_vanilla` counts.
pub multi_lookup-vanilla :
    (n_streams : ℕ) (dataset lookups : List ℤ)
    → 0 < n_streams
    → n_streams < 2 ^ 64
    → 0 < length dataset
    → (enough : ℕ) × ((rounds fuel : ℕ)
        → enough < rounds
        → enough < fuel
        → state_machine_multi_lookup rounds fuel dataset lookups n_streams
          ≡ test_vanilla dataset lookups)
unfolding test_vanilla state_machine_multi_lookup
multi_lookup-vanilla n_streams dataset lookups streams small some_items =
    let last = (n_streams + 2 ^ 64 - 1) % 2 ^ 64 in
    let frames : List Frame = replicate n_streams new_frame in
    let long : length frames ≡ suc last =
      length-replicate n_streams new_frame ∙ omega (arith, streams, small) in
    let fresh : (j : ℕ) (f : Frame) → at frames j ≡ ok f → is_running f.state ≡ ltb last j =
      λ j f e. new_frames-States n_streams j f e ∙ ground (arith, at-lt frames j e, long) in
    let (beg, first) = at-total dataset 0 some_items in
    let (total, answer) = test_vanilla_loop-total dataset last some_items 0 lookups in
    (
      budget dataset last some_items lookups,
      λ rounds fuel most enough.
          rw first (
            lookups_complete dataset last some_items rounds fuel total lookups frames answer
              (new-Pendings dataset n_streams) fresh long most enough)
          ∙ sym answer,
    )
