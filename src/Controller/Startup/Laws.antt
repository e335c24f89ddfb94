-- ===== src/Controller/Startup/Laws.antt =====
-- Every execution of `Run`.
use jupyter_operator.Common.{
  ℕ, zero, suc, String, Bool, true, false, ◌==◌, ◌&&◌, Option, none, some, List, [], ◌∷◌, ◌≡◌, refl,
  All, Bool-cases, inl, inr,
}
use jupyter_operator.Prog.{Prog, ◌>>=◌, ◌>>◌}
use jupyter_operator.Prog.Holds.{Anything, Holds, Holds-bind}
use jupyter_operator.Kube.{Error, Result}
use jupyter_operator.Controller.Crd.{
  notebook_crd, create_crd, crd_created, crd_established, after_creation, init_crd,
}
use jupyter_operator.Controller.Startup.{
  notebook_type, Startup, act_each, repeat, add_handler, add_handlers, wait_each, synced_error,
  wait_caches, after_wait, after_init, run_controller,
}

module _ {W : Type 0} (G : W → W → Type 0) (c : Startup W) where
  -- The cache of each informer has been reported as synced.
  abbrev pub AllSynced : List String → Type 0
  AllSynced its = All (λ it. (w : W) × ((c.wait_for_cache_sync it w).0 ≡ true)) its

  -- The guarantee `G` allows the steps of the start, but handlers, workers and the wait for the end
  -- only once all caches have been synced.
  pub record StartBounds : Type 1 where
    pub reads : (w : W) → G w w
    pub create_ok : (w : W) → G w (c.crds.create notebook_crd w).1
    -- `wait.PollUntil` takes no step but those of its condition.
    pub polls :
        (interval limit : ℕ) (condition : Prog W (Result Bool))
        → Holds G ⊥ Anything condition
        → Holds G ⊥ Anything (c.crds.poll_until interval limit condition)
    pub run_ok : (it : String) (w : W) → G w (c.run_informer it w)
    pub wait_ok : (it : String) (w : W) → G w (c.wait_for_cache_sync it w).1
    pub notebook_ok :
        AllSynced c.informers → (it : String) (w : W) → G w (c.add_notebook_handlers it w)
    pub object_ok : AllSynced c.informers → (it : String) (w : W) → G w (c.add_object_handlers it w)
    pub worker_ok : AllSynced c.informers → (w : W) → G w (c.start_worker w)
    pub stop_ok : AllSynced c.informers → (w : W) → G w (c.wait_for_stop w)
    pub shut_down_ok : (w : W) → G w (c.shut_down w)

module _ {W : Type 0} (G : W → W → Type 0) (c : Startup W) (bounds : StartBounds G c) where
  act_each-Holds :
      (f : String → W → W) (its : List String)
      → ((it : String) (w : W) → G w (f it w))
      → Holds G ⊥ Anything (act_each f its)
  unfolding act_each
  act_each-Holds f [] h = tt
  act_each-Holds f (it ∷ its) h = λ w. (h it w, act_each-Holds f its h)

  repeat-Holds : (n : ℕ) (f : W → W) → ((w : W) → G w (f w)) → Holds G ⊥ Anything (repeat n f)
  unfolding repeat
  repeat-Holds zero f h = tt
  repeat-Holds (suc n) f h = λ w. (h w, repeat-Holds n f h)

  crd_created-Holds : Holds G ⊥ Anything (crd_created c.crds)
  unfolding crd_created create_crd
  crd_created-Holds = λ w. (bounds.create_ok w, tt)

  crd_established-Holds : Holds G ⊥ Anything (crd_established c.crds)
  unfolding crd_established
  crd_established-Holds = λ w. (bounds.reads w, tt)

  after_creation-Holds : (e : Option Error) → Holds G ⊥ Anything (after_creation c.crds e)
  unfolding after_creation
  after_creation-Holds (some e) = tt
  after_creation-Holds none =
      Holds-bind G ⊥ Anything Anything (c.crds.poll_until 500 60 (crd_established c.crds)) _
        (bounds.polls 500 60 (crd_established c.crds) crd_established-Holds) (λ e h. tt)

  init_crd-Holds : Holds G ⊥ Anything (init_crd c.crds)
  unfolding init_crd
  init_crd-Holds =
      Holds-bind G ⊥ Anything Anything (c.crds.poll_until 500 60 (crd_created c.crds)) _
        (bounds.polls 500 60 (crd_created c.crds) crd_created-Holds) (λ e h. after_creation-Holds e)

  wait_each-Holds :
      (its : List String) → Holds G ⊥ (λ ok. ok ≡ true → AllSynced G c its) (wait_each c its)
  unfolding wait_each
  wait_each-Holds [] = λ e. tt
  wait_each-Holds (it ∷ its) = λ w. (
    bounds.wait_ok it w,
    Holds-bind G ⊥ (λ ok. ok ≡ true → AllSynced G c its) _ (wait_each c its) _ (wait_each-Holds its)
        (λ rest h. both w rest h (c.wait_for_cache_sync it w).0 refl),
  )
    where
      both :
          (w : W) (rest : Bool)
          → (rest ≡ true → AllSynced G c its)
          → (ok : Bool) → (c.wait_for_cache_sync it w).0 ≡ ok
          → (ok && rest) ≡ true
          → AllSynced G c (it ∷ its)
      both w rest h true e all = ((w, e), h all)
      both w rest h false e all = cc

  synced_error-none : (ok : Bool) → synced_error c ok ≡ none → ok ≡ true
  unfolding synced_error
  synced_error-none true e = refl
  synced_error-none false e = cc

  wait_caches-Holds : Holds G ⊥ (λ e. e ≡ none → AllSynced G c c.informers) (wait_caches c)
  unfolding wait_caches
  wait_caches-Holds =
      Holds-bind G ⊥ _ _ (wait_each c c.informers) _ (wait_each-Holds c.informers)
        (λ ok h e. h (synced_error-none ok e))

  add_handler_ok : AllSynced G c c.informers → (it : String) (w : W) → G w (add_handler c it w)
  unfolding add_handler
  add_handler_ok synced it w = elim (Bool-cases (it == notebook_type)) [
    | inl same ↦ rw same (bounds.notebook_ok synced it w)
    | inr other ↦ rw other (bounds.object_ok synced it w)
  ]

  after_wait-Holds :
      (workers : ℕ) (e : Option Error)
      → (e ≡ none → AllSynced G c c.informers)
      → Holds G ⊥ (λ r. r ≡ none → AllSynced G c c.informers) (after_wait c workers e)
  unfolding after_wait add_handlers
  after_wait-Holds workers (some e) h = λ p. cc
  after_wait-Holds workers none h =
      Holds-bind G ⊥ Anything _ (add_handlers c >> repeat workers c.start_worker) _
        (Holds-bind G ⊥ Anything Anything (add_handlers c) _
          (act_each-Holds (add_handler c) c.informers (add_handler_ok (h refl)))
          (λ a k. repeat-Holds workers c.start_worker (bounds.worker_ok (h refl))))
        (λ a k w. (bounds.stop_ok (h refl) w, λ e. h refl))

  after_init-Holds :
      (workers : ℕ) (e : Option Error)
      → Holds G ⊥ (λ r. r ≡ none → AllSynced G c c.informers) (after_init c workers e)
  unfolding after_init
  after_init-Holds workers (some e) = λ p. cc
  after_init-Holds workers none =
      Holds-bind G ⊥ _ _ (act_each c.run_informer c.informers >> wait_caches c) _
        (Holds-bind G ⊥ Anything _ (act_each c.run_informer c.informers) _
          (act_each-Holds c.run_informer c.informers bounds.run_ok) (λ a k. wait_caches-Holds))
        (after_wait-Holds workers)

  -- Where polling takes no steps but those of its condition: in every execution of `Run`, the event
  -- handlers are added, the workers started and the end awaited only after the caches of all
  -- informers were reported as synced; there is no panic; and `Run` returns no error only if they
  -- were.
  pub run_controller-Holds :
      (workers : ℕ)
      → Holds G ⊥ (λ e. e ≡ none → AllSynced G c c.informers) (run_controller c workers)
  unfolding run_controller
  run_controller-Holds workers =
      Holds-bind G ⊥ _ _ (init_crd c.crds >>= after_init c workers) _
        (Holds-bind G ⊥ Anything _ (init_crd c.crds) _ init_crd-Holds
          (λ e h. after_init-Holds workers e))
        (λ e h w. (bounds.shut_down_ok w, h))
