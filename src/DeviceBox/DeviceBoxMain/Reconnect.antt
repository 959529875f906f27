-- ===== src/DeviceBox/DeviceBoxMain/Reconnect.antt =====
-- DeviceBox/DeviceBoxMain.cpp: from a broken connection to the next one, and from a signal to the end.
use ip_cam_box.Prelude.{
  string_eq, ℕ, ◌+◌, String, Bool, false, Option, some, List, [], ◌∷◌, ◌++◌, ◌≡◌, refl, ap, sym,
  subst, when_some, Outcome, ok, fault, ◌>>=◌, length, get_elem?, arith,
}
use ip_cam_box.DeviceBox.Client.{schedule_reconnect}
use ip_cam_box.DeviceBox.Controller.{Controller, callback, clear_config, stage_done, dropbox_reset}
use ip_cam_box.DeviceBox.DeviceConfig.{clear}
use ip_cam_box.DeviceBox.Controller.Shutdowns.{stages_done}
use ip_cam_box.DeviceBox.DeviceBoxMain.{
  Device, Bound, of_client, Happening, post_runs, timer_ends, stage_ends, dropbox_ends, happen,
  happens, call_number, call_bound,
}

-- The members of the sources finish in an order.
abbrev pub in_order : List (Bool × String) → List Happening
in_order [] = []
in_order ((active, source) ∷ order) = stage_ends active source ∷ in_order order

get_elem?-append_end {ℓ} :
    {A : Type ℓ} (xs : List A) (x : A) → get_elem? (xs ++ (x ∷ [])) (length xs) ≡ some x
get_elem?-append_end [] x = refl
get_elem?-append_end (y ∷ xs) x = get_elem?-append_end xs x

bind_assoc {ℓ κ μ} :
    {A : Type ℓ} {B : Type κ} {C : Type μ} (o : Outcome A) (f : A → Outcome C) (g : A → Outcome B)
    (h : B → Outcome C)
    → ((a : A) → f a ≡ (g a >>= h))
    → (o >>= f) ≡ ((o >>= g) >>= h)
bind_assoc (ok a) f g h e = e a
bind_assoc (fault why) f g h e = refl

module _ (dir_make_tmp : ℕ → Option String) (ndebug shutting_down : Bool) where
  abbrev pub run : List Happening → Device → Outcome Device
  run = happens dir_make_tmp ndebug shutting_down

  pub happens-append :
      (hs ks : List Happening) (d : Device) → run (hs ++ ks) d ≡ (run hs d >>= run ks)
  unfolding happens
  happens-append [] ks d = refl
  happens-append (h ∷ hs) ks d =
      bind_assoc (happen dir_make_tmp ndebug shutting_down h d) (run (hs ++ ks)) (run hs) (run ks)
        (happens-append hs ks)

  stage-ok :
      (o : Outcome Controller) (then_do : Controller → Outcome Controller) (hs : List Happening)
      (c : Controller) (d : Device)
      → ((e : Controller)
          → then_do e ≡ ok c
          → run hs (record d { controller = e }) ≡ ok (record d { controller = c }))
      → (o >>= then_do) ≡ ok c
      → ((o >>= λ e. ok (record d { controller = e })) >>= run hs)
        ≡ ok (record d { controller = c })
  stage-ok (ok e) then_do hs c d k h = k e h
  stage-ok (fault why) then_do hs c d k h = cc

  pub happens-stages :
      (order : List (Bool × String)) (c : Controller) (d : Device)
      → stages_done ndebug order d.controller ≡ ok c
      → run (in_order order) d ≡ ok (record d { controller = c })
  unfolding happens happen
  happens-stages [] c d h = ground (arith, h)
  happens-stages ((active, source) ∷ order) c d h =
      stage-ok (stage_done ndebug active source d.controller) (stages_done ndebug order)
        (in_order order) c d (λ e g. happens-stages order c (record d { controller = e }) g) h

-- The end of a reset: the task after the sources, the Dropbox client, the callback and the wait.
abbrev pub after_reset : ℕ → List Happening
after_reset n = post_runs ∷ dropbox_ends (clear_config (callback n)) ∷ post_runs ∷ timer_ends ∷ []

-- The device that connects again.
abbrev connecting_again : Controller → Device → Device
connecting_again k d =
    let n = length d.bound in
    record d {
      client = record d.client { waiting = false; connecting = d.client.connecting + 1 };
      controller = record k {
        handlers = [];
        posted = [];
        config = clear k.config;
        asked = k.asked ++ (dropbox_reset (clear_config (callback n)) ∷ []);
        called = k.called ++ (n ∷ []);
      };
      bound = d.bound ++ (of_client schedule_reconnect ∷ []);
    }

pub call_number_last :
    (shutting_down : Bool) (bound : List Bound) (f : Bound) (d : Device)
    → d.bound ≡ bound ++ (f ∷ [])
    → call_number shutting_down (length bound) d ≡ call_bound shutting_down f d
unfolding call_number when_some
call_number_last shutting_down bound f d last =
    let found : get_elem? d.bound (length bound) ≡ some f =
      subst (λ fs. get_elem? fs (length bound) ≡ some f) (sym last)
        (get_elem?-append_end bound f) in
    ap (λ o. when_some o d (λ g. call_bound shutting_down g d)) found

-- The controller before the callback is called.
abbrev cleared : ℕ → Controller → Controller
cleared n k = record k {
  handlers = [];
  posted = [];
  config = clear k.config;
  asked = k.asked ++ (dropbox_reset (clear_config (callback n)) ∷ []);
  called = k.called ++ (n ∷ []);
}

abbrev pub bound_last : Bound → Device → Device
bound_last f d = record d { bound = d.bound ++ (f ∷ []) }
