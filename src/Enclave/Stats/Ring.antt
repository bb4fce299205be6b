-- ===== src/Enclave/Stats/Ring.antt =====
-- crates/enclave/src/admin.rs: proofs about the hours that are kept.
use tokumai.Base.{
  ℕ, zero, suc, ◌+◌, ◌-◌, ◌/◌, ◌≤◌, ◌≡◌, refl, ap, ◌∙◌, Bool, true, false, ◌&&◌, inl, inr, List, [],
  ◌∷◌, ◌++◌, String, ◌=ₛ◌, length, drop, length-drop, length-append, if◌then◌else◌, if_both, arith,
  Bool-cases, ==_refl, eq_refl,
}
use tokumai.Enclave.Stats.{
  hours_kept, hour_ms, Count, Row, Hour, Stats, counted, one_if, no_count, count_row, at_hour,
  with_hour, count_last, add, kind_of, request,
}

-- The counts of a model and kind in a row.
abbrev pub row_count : String → String → List Row → Count
row_count model kind [] = no_count
row_count model kind (r ∷ rs) =
    if (r.model =ₛ model) && (r.kind =ₛ kind) then r.count else row_count model kind rs

-- … in the last hour.
abbrev pub last_count : String → String → List Hour → Count
last_count model kind [] = no_count
last_count model kind (h ∷ []) = row_count model kind h.by
last_count model kind (h ∷ g ∷ hs) = last_count model kind (g ∷ hs)

row_count-count_row :
    (model kind : String) (toku : ℕ) (declined : Bool) (rs : List Row)
    → row_count model kind (count_row model kind toku declined rs)
      ≡ counted toku declined (row_count model kind rs)
unfolding count_row
row_count-count_row model kind toku declined [] = rw (eq_refl model, eq_refl kind) refl
row_count-count_row model kind toku declined (r ∷ rs) =
    elim (Bool-cases ((r.model =ₛ model) && (r.kind =ₛ kind))) [
      | inl e ↦ rw (e, e) refl
      | inr e ↦ rw (e, e) (row_count-count_row model kind toku declined rs)
    ]

last_count-count_last :
    (model kind : String) (toku : ℕ) (declined : Bool) (h : Hour) (hs : List Hour)
    → last_count model kind (count_last model kind toku declined (h ∷ hs))
      ≡ counted toku declined (last_count model kind (h ∷ hs))
unfolding count_last
last_count-count_last model kind toku declined h [] =
    row_count-count_row model kind toku declined h.by
last_count-count_last model kind toku declined h (g ∷ []) =
    row_count-count_row model kind toku declined g.by
last_count-count_last model kind toku declined h (g ∷ f ∷ hs) =
    last_count-count_last model kind toku declined g (f ∷ hs)

length-count_last :
    (model kind : String) (toku : ℕ) (declined : Bool) (hs : List Hour)
    → length (count_last model kind toku declined hs) ≡ length hs
unfolding count_last
length-count_last model kind toku declined [] = refl
length-count_last model kind toku declined (h ∷ []) = refl
length-count_last model kind toku declined (h ∷ g ∷ hs) =
    omega (arith, length-count_last model kind toku declined (g ∷ hs))

at_hour-count_last :
    (hour : ℕ) (model kind : String) (toku : ℕ) (declined : Bool) (hs : List Hour)
    → at_hour hour (count_last model kind toku declined hs) ≡ at_hour hour hs
unfolding count_last at_hour
at_hour-count_last hour model kind toku declined [] = refl
at_hour-count_last hour model kind toku declined (h ∷ []) = refl
at_hour-count_last hour model kind toku declined (h ∷ g ∷ []) = refl
at_hour-count_last hour model kind toku declined (h ∷ g ∷ f ∷ hs) =
    at_hour-count_last hour model kind toku declined (g ∷ f ∷ hs)

last_count-at_hour :
    (hour : ℕ) (model kind : String) (toku : ℕ) (declined : Bool) (hs : List Hour)
    → at_hour hour hs ≡ true
    → last_count model kind (count_last model kind toku declined hs)
      ≡ counted toku declined (last_count model kind hs)
unfolding at_hour
last_count-at_hour hour model kind toku declined [] e = cc
last_count-at_hour hour model kind toku declined (h ∷ hs) e =
    last_count-count_last model kind toku declined h hs

drop-snoc :
    (n : ℕ) (x : Hour) (hs : List Hour)
    → n ≤ length hs
    → drop n (hs ++ x ∷ []) ≡ drop n hs ++ x ∷ []
drop-snoc zero x hs le = refl
drop-snoc (suc n) x [] le = absurd (omega arith)
drop-snoc (suc n) x (h ∷ hs) le = drop-snoc n x hs (omega arith)

at_hour-snoc : (x : Hour) (hs : List Hour) → at_hour x.hour (hs ++ x ∷ []) ≡ true
unfolding at_hour
at_hour-snoc x [] = ==_refl x.hour
at_hour-snoc x (h ∷ []) = ==_refl x.hour
at_hour-snoc x (h ∷ g ∷ hs) = at_hour-snoc x (g ∷ hs)

last_count-snoc :
    (model kind : String) (x : Hour) (hs : List Hour)
    → last_count model kind (hs ++ x ∷ []) ≡ row_count model kind x.by
last_count-snoc model kind x [] = refl
last_count-snoc model kind x (h ∷ []) = refl
last_count-snoc model kind x (h ∷ g ∷ hs) = last_count-snoc model kind x (g ∷ hs)

-- The ring with an hour for the request.
record Turned (model kind : String) (hour : ℕ) (hs us : List Hour) : Type 0 where
  bounded : length us ≤ hours_kept
  at : at_hour hour us ≡ true
  last : last_count model kind us ≡ (if at_hour hour hs then last_count model kind hs else no_count)

with_hour-Turned :
    (model kind : String) (hour : ℕ) (hs : List Hour)
    → length hs ≤ hours_kept
    → Turned model kind hour hs (with_hour hour hs)
unfolding with_hour
with_hour-Turned model kind hour hs le =
    let x : Hour = record { hour = hour; by = [] } in
    let n = length (hs ++ x ∷ []) - hours_kept in
    let more : length (hs ++ x ∷ []) ≡ length hs + 1 = length-append hs (x ∷ []) in
    let cut : drop n (hs ++ x ∷ []) ≡ drop n hs ++ x ∷ [] = drop-snoc n x hs (omega arith) in
    elim (Bool-cases (at_hour hour hs)) [
      | inl e ↦ rw e (record { bounded = le; at = e; last = rw e refl })
      | inr e ↦
          rw (e, cut)
            (record {
              bounded = omega (arith, length-append (drop n hs) (x ∷ []), length-drop n hs);
              at = at_hour-snoc x (drop n hs);
              last = rw e (last_count-snoc model kind x (drop n hs));
            })
    ]

module _ (show : ℕ → String) (is_image_model : String → Bool) where
  -- In a ring of at most 48 hours, a request leaves at most 48, the last of them its own hour, and
  -- there the counts of its model and kind are those before and one request, what it cost, and one
  -- declined where it was; an hour that is new starts from nothing.
  pub request-counted :
      (now_ms : ℕ) (model : String) (toku : ℕ) (declined : Bool) (s : Stats)
      → length s.hours ≤ hours_kept
      → let u = request show is_image_model now_ms model toku declined s in
        let kind = kind_of show is_image_model model in
        let hour = now_ms / hour_ms in
        let before = if at_hour hour s.hours then last_count model kind s.hours else no_count in
        let after = last_count model kind u.hours in
        (length u.hours ≤ hours_kept)
        × (at_hour hour u.hours ≡ true)
        × (after.requests ≡ before.requests + 1)
        × (after.toku ≡ before.toku + toku)
        × (after.declined ≡ before.declined + (if declined then 1 else 0))
  unfolding request add counted
  request-counted now_ms model toku declined s le =
      let kind = kind_of show is_image_model model in
      let hour = now_ms / hour_ms in
      let before = if at_hour hour s.hours then last_count model kind s.hours else no_count in
      let turned = with_hour-Turned model kind hour s.hours le in
      let hs = with_hour hour s.hours in
      let one : one_if declined ≡ (if declined then 1 else 0) =
        elim declined as (λ b. one_if b ≡ (if b then 1 else 0)) [ true ↦ refl | false ↦ refl ] in
      let P : List Hour → Type 0 = λ us.
        let after = last_count model kind us in
        (length us ≤ hours_kept)
        × (at_hour hour us ≡ true)
        × (after.requests ≡ before.requests + 1)
        × (after.toku ≡ before.toku + toku)
        × (after.declined ≡ before.declined + (if declined then 1 else 0)) in
      let count : last_count model kind (count_last model kind toku declined hs)
          ≡ counted toku declined before =
        last_count-at_hour hour model kind toku declined hs turned.at
        ∙ ap (counted toku declined) turned.last in
      let done : P (count_last model kind toku declined hs) = (
        omega (arith, length-count_last model kind toku declined hs, turned.bounded),
        at_hour-count_last hour model kind toku declined hs ∙ turned.at,
        ap (λ (c : Count). c.requests) count,
        ap (λ (c : Count). c.toku) count,
        ap (λ (c : Count). c.declined) count ∙ ap (λ (n : ℕ). before.declined + n) one,
      ) in
      if_both (λ (u : Stats). P u.hours) declined (λ _. done) (λ _. done)
