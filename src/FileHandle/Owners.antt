-- ===== src/FileHandle/Owners.antt =====
-- Several FileHandles and the descriptors that they hold.
use base_utilities_esp.Base.{
  ℕ, ◌≡◌, refl, sym, ap, ◌∙◌, true, false, List, ◌∷◌, ◌==◌, ==_iff, if◌then◌else◌, ℤ, pos, negsuc,
  is_neg, minus_one, arith, Bool-cases, inl, inr,
}
use base_utilities_esp.FileHandle.Ledger.{Act, lives, is_live, orderly}

-- The descriptor of each object; an object that is not alive holds a negative one.
abbrev pub Fds : Type 0
Fds = ℕ → ℤ

abbrev pub put : ℕ → ℤ → Fds → Fds
put i fd fds = λ j. if i == j then fd else fds j

-- Each object that holds a descriptor holds an open one, no two hold the same, each open one is held,
-- and every call so far was on one that was open.
pub record IsOwned (fds : Fds) (w : List Act) : Type 0 where
  pub open_if_held : (i n : ℕ) → fds i ≡ pos n → lives n w ≡ true
  pub held_if_open : (n : ℕ) → lives n w ≡ true → (i : ℕ) × (fds i ≡ pos n)
  pub held_once : (i j n : ℕ) → fds i ≡ pos n → fds j ≡ pos n → i ≡ j
  pub in_order : orderly w ≡ true

-- The world after some calls on a descriptor that is not negative.
pub data Extends (fd : ℤ) (w : List Act) : List Act → Type 0 where
  here : Extends fd w w
  more : (v : List Act) → is_neg fd ≡ false → Extends fd w v → Extends fd w (Act.used fd ∷ v)

pub Extends-trans : (fd : ℤ) (w v u : List Act) → Extends fd w v → Extends fd v u → Extends fd w u
Extends-trans fd w v u first Extends.here = first
Extends-trans fd w v u first (Extends.more u' held rest) =
    Extends.more u' held (Extends-trans fd w v u' first rest)

lives-Extends : (fd : ℤ) (w v : List Act) (n : ℕ) → Extends fd w v → lives n v ≡ lives n w
unfolding lives
lives-Extends fd w v n Extends.here = refl
lives-Extends fd w v n (Extends.more u held rest) = lives-Extends fd w u n rest

-- Objects with the same descriptors.
pub IsOwned-same :
    (fds fds' : Fds) (w : List Act) → ((i : ℕ) → fds' i ≡ fds i) → IsOwned fds w → IsOwned fds' w
IsOwned-same fds fds' w same owned = record {
  open_if_held = λ i n e. owned.open_if_held i n (sym (same i) ∙ e);
  held_if_open = λ n e. let (i, h) = owned.held_if_open n e in (i, same i ∙ h);
  held_once = λ i j n e e'. owned.held_once i j n (sym (same i) ∙ e) (sym (same j) ∙ e');
  in_order = owned.in_order;
}

pub put_self : (fds : Fds) (i : ℕ) (fd : ℤ) → fd ≡ fds i → (j : ℕ) → put i fd fds j ≡ fds j
put_self fds i fd e j = elim (Bool-cases (i == j)) [
  | inl same ↦ rw same (e ∙ ap fds ((==_iff i j).0 same))
  | inr away ↦ rw away refl
]

is_live_held :
    (fd : ℤ) (w : List Act)
    → is_neg fd ≡ false
    → ((n : ℕ) → fd ≡ pos n → lives n w ≡ true)
    → is_live fd w ≡ true
is_live_held (pos n) w held opens = opens n refl
is_live_held (negsuc k) w held opens = cc

orderly-Extends :
    (fds : Fds) (i : ℕ) (w v : List Act) → IsOwned fds w → Extends (fds i) w v → orderly v ≡ true
unfolding orderly
orderly-Extends fds i w v owned Extends.here = owned.in_order
orderly-Extends fds i w v owned (Extends.more u held rest) =
    let live =
      is_live_held (fds i) u held
        (λ n e. lives-Extends (fds i) w u n rest ∙ owned.open_if_held i n e) in
    rw live (orderly-Extends fds i w u owned rest)

pub Extends-IsOwned :
    (fds : Fds) (i : ℕ) (w v : List Act) → IsOwned fds w → Extends (fds i) w v → IsOwned fds v
Extends-IsOwned fds i w v owned ext = record {
  open_if_held = λ j n e. lives-Extends (fds i) w v n ext ∙ owned.open_if_held j n e;
  held_if_open = λ n e. owned.held_if_open n (sym (lives-Extends (fds i) w v n ext) ∙ e);
  held_once = owned.held_once;
  in_order = orderly-Extends fds i w v owned ext;
}

module _ (fds : Fds) (i : ℕ) (w : List Act) (owned : IsOwned fds w) where
  -- The object i closes its descriptor.
  pub close-IsOwned :
      (n : ℕ) → fds i ≡ pos n → IsOwned (put i minus_one fds) (Act.closed (pos n) ∷ w)
  unfolding lives orderly
  close-IsOwned n e = record {
    open_if_held = λ j m h. ground (arith, owned.open_if_held j m, owned.held_once i j m);
    held_if_open =
        λ m h. let (j, held) = owned.held_if_open m (ground arith) in (j, ground (arith, held, h));
    held_once = λ j k m h h'. ground (arith, owned.held_once j k m);
    in_order = ground (arith, owned.open_if_held i n, owned.in_order);
  }

  -- The object i, which holds none, opens one, or fails to.
  pub open-IsOwned :
      (n : ℕ)
      → is_neg (fds i) ≡ true
      → lives n w ≡ false
      → IsOwned (put i (pos n) fds) (Act.opened n ∷ w)
  unfolding lives orderly
  open-IsOwned n idle fresh = record {
    open_if_held = λ j m h. ground (arith, owned.open_if_held j m);
    held_if_open = λ m h. elim (Bool-cases (n == m)) [
      | inl same ↦ (i, ground arith)
      | inr other ↦ let (j, held) = owned.held_if_open m (ground arith) in (j, ground (arith, held))
    ];
    held_once = λ j k m h h'.
        ground (arith, owned.held_once j k m, owned.open_if_held j m, owned.open_if_held k m);
    in_order = ground (arith, owned.in_order);
  }

  pub fail-IsOwned : (k : ℕ) → is_neg (fds i) ≡ true → IsOwned (put i (negsuc k) fds) w
  fail-IsOwned k idle = record {
    open_if_held = λ j m h. ground (arith, owned.open_if_held j m);
    held_if_open = λ m h. let (j, held) = owned.held_if_open m h in (j, ground (arith, held));
    held_once = λ j k m h h'. ground (arith, owned.held_once j k m);
    in_order = owned.in_order;
  }

  -- The object i, which holds none, takes over that of another one.
  pub take_over-IsOwned :
      (j : ℕ)
      → is_neg (fds i) ≡ true
      → (i == j) ≡ false
      → IsOwned (put i (fds j) (put j minus_one fds)) w
  take_over-IsOwned j idle apart = record {
    open_if_held = λ k m h. ground (arith, owned.open_if_held j m, owned.open_if_held k m);
    held_if_open = λ m h.
        let (k, held) = owned.held_if_open m h in
        elim (Bool-cases (j == k)) [
          | inl same ↦ (i, ground (arith, held, ap fds ((==_iff j k).0 same)))
          | inr other ↦ (k, ground (arith, held))
        ];
    held_once = λ k l m h h'.
        ground (arith, owned.held_once k l m, owned.held_once j l m, owned.held_once k j m);
    in_order = owned.in_order;
  }
