-- ===== src/Timer/Tests.antt =====
-- A ticker that is active or not.
use base_utilities_esp.Base.{
  ℕ, Bool, true, false, ◌≡◌, ◌≢◌, refl, none, List, [], ◌∷◌, ltb, ◌==◌, if◌then◌else◌, arith,
}
use base_utilities_esp.Timer.{
  Ticker, make, start_periodic, start_once, start_periodic_chrono, start_once_chrono, stop,
  is_active, destroy,
}
use base_utilities_esp.Timer.History.{
  PassageLaws, Call, once, wait, periodic_chrono, stop_timer, run, waits, activity-run,
}
use base_utilities_esp.Timer.Activity.{TickerLaws, is_active-start}

abbrev switch : Ticker
switch = record {
  State = Bool;
  make = false;
  attach_ms = λ t ms. true;
  once_ms = λ t ms. true;
  detach = λ t. false;
  active = λ t. t;
  elapse = λ t. t;
}

switch-TickerLaws : TickerLaws switch
switch-TickerLaws = record { attached = λ t ms. refl; once = λ t ms. refl; detached = λ t. refl }

is_active-start_instance :
    (is_active switch (start_periodic switch (make switch) 500).1
      ≡ (start_periodic switch (make switch) 500).0)
    × (is_active switch (start_once switch (make switch) 500).1
        ≡ (start_once switch (make switch) 500).0)
    × (is_active switch (start_periodic_chrono switch (make switch) 500).1
        ≡ (start_periodic_chrono switch (make switch) 500).0)
    × (is_active switch (start_once_chrono switch (make switch) 500).1
        ≡ (start_once_chrono switch (make switch) 500).0)
    × (is_active switch (stop switch (make switch)).1 ≡ false)
is_active-start_instance = is_active-start switch switch-TickerLaws (make switch) 500

-- A ticker by what it does: nothing, or its callback once, or again and again.
abbrev by_mode : Ticker
by_mode = record {
  State = ℕ;
  make = 0;
  attach_ms = λ t ms. 2;
  once_ms = λ t ms. 1;
  detach = λ t. 0;
  active = λ t. ltb 0 t;
  elapse = λ t. if t == 1 then 0 else t;
}

by_mode-PassageLaws : PassageLaws by_mode (λ t. t == 2)
by_mode-PassageLaws = record {
  attached = λ t ms. refl;
  lasting = λ t e. ground (arith, e);
  repeats = λ t e. ground (arith, e);
  detached = λ t. refl;
  idle = λ t e. ground (arith, e);
}

abbrev history : List Call
history = once 100 ∷ wait ∷ periodic_chrono 20 ∷ stop_timer ∷ []

activity-run_instance :
    let t = run by_mode history (make by_mode) in
    (destroy by_mode t ≢ none)
    × ((start_periodic by_mode t 50).0 ≡ true)
    × ((start_once by_mode t 50).0 ≡ true)
    × ((stop by_mode t).0 ≡ true)
    × (is_active by_mode (waits by_mode 3 (start_periodic by_mode t 50).1) ≡ true)
    × (is_active by_mode (waits by_mode 3 (stop by_mode t).1) ≡ false)
activity-run_instance = activity-run by_mode (λ t. t == 2) by_mode-PassageLaws history 50 3
