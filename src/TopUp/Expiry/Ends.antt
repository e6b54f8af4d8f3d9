-- ===== src/TopUp/Expiry/Ends.antt =====
-- The sweep of expired orders ends, and leaves none of them pending.
use ai_cinema_be.Common.{
  zero, some, ◌<◌, ltb→lt, ap, ◌∙◌, sym, ltb, ==_iff, ℕ, suc, ◌+◌, ◌≡◌, ◌≤◌, refl, true, false,
  ◌&&◌, List, [], ◌∷◌, map, arith, ◌==◌, Bool-cases, inl, inr, if◌then◌else◌,
}
use ai_cinema_be.Common.Lists.{
  length-perm, take-all, any-perm, take, All-map, All, keep, length, any,
}
use ai_cinema_be.TopUp.Rows.{Orders, Queries, CoinTopUp}
use ai_cinema_be.TopUp.Expiry.{
  closed_by, close_stale, stale_orders, expire_due_orders, order_batch, is_stale, is_among,
  close_order,
}

module _ (now : ℕ) where
  -- The orders that are due.
  abbrev pub due : List CoinTopUp → List CoinTopUp
  due = keep (is_stale now)

  -- What is closed is due no longer.
  one_closed :
      (stale : List CoinTopUp) (o : CoinTopUp)
      → is_among o.id stale ≡ true
      → is_stale now (close_order stale o) ≡ false
  one_closed stale o h = ground arith

  one_kept :
      (stale : List CoinTopUp) (o : CoinTopUp)
      → is_among o.id stale ≡ false
      → close_order stale o ≡ o
  one_kept stale o h = rw h refl

  length-due :
      (o : CoinTopUp) (os : List CoinTopUp)
      → length (due (o ∷ os)) ≡ (if is_stale now o then suc (length (due os)) else length (due os))
  length-due o os = elim (Bool-cases (is_stale now o)) [ inl t ↦ rw t refl | inr t ↦ rw t refl ]

  fewer_or_same :
      (stale os : List CoinTopUp) → length (due (map (close_order stale) os)) ≤ length (due os)
  fewer_or_same stale [] = omega arith
  fewer_or_same stale (o ∷ os) =
      rw (length-due o os, length-due (close_order stale o) (map (close_order stale) os))
        (elim (Bool-cases (is_among o.id stale)) [
          | inl t ↦ ground (arith, one_closed stale o t, fewer_or_same stale os)
          | inr t ↦ rw (one_kept stale o t) (ground (arith, fewer_or_same stale os))
        ])

  -- An order that is due and among the closed ones makes them fewer.
  fewer :
      (stale os : List CoinTopUp)
      → any (λ (o : CoinTopUp). is_among o.id stale && is_stale now o) os ≡ true
      → length (due (map (close_order stale) os)) + 1 ≤ length (due os)
  fewer stale [] h = absurd (cc)
  fewer stale (o ∷ os) h =
      rw (length-due o os, length-due (close_order stale o) (map (close_order stale) os))
        (elim (Bool-cases (is_among o.id stale)) [
          | inr t ↦ rw (one_kept stale o t) (ground (arith, fewer stale os))
          | inl t ↦ elim (Bool-cases (is_stale now o)) [
            | inl u ↦ rw (u, one_closed stale o t) (omega (arith, fewer_or_same stale os))
            | inr u ↦ rw (u, one_closed stale o t) (fewer stale os (rw (t, u) at h))
          ]
        ])

  -- An id among the due orders is the id of an order that is due.
  among_due :
      (id : ℕ) (stale os : List CoinTopUp)
      → is_among id stale ≡ true
      → is_among id (due os) ≡ true
      → any (λ (o : CoinTopUp). is_among o.id stale && is_stale now o) os ≡ true
  among_due id stale [] s h = absurd (cc)
  among_due id stale (o ∷ os) s h = elim (Bool-cases (is_stale now o)) [
    | inr t ↦ rw t (ground (arith, among_due id stale os s (rw t at h)))
    | inl t ↦ elim (Bool-cases (o.id == id)) [
      | inl e ↦ rw (t, (==_iff o.id id).0 e, s) refl
      | inr e ↦ rw t (ground (arith, among_due id stale os s (rw (t, e) at h)))
    ]
  ]

  same_id : (id : ℕ) (o : CoinTopUp) (os : List CoinTopUp) → o.id ≡ id → is_among id (o ∷ os) ≡ true
  same_id id o os e = rw ((==_iff o.id id).1 e) refl

  in_due :
      (os : List CoinTopUp)
      → All (λ (o : CoinTopUp). is_stale now o ≡ true → is_among o.id (due os) ≡ true) os
  in_due [] = tt
  in_due (o ∷ os) = (
    λ t. rw t (same_id o.id o (due os) refl),
    All-map _ _ os (λ x h t. later x (h t)) (in_due os),
  )
    where
      later : (x : CoinTopUp) → is_among x.id (due os) ≡ true → is_among x.id (due (o ∷ os)) ≡ true
      later x h = elim (Bool-cases (is_stale now o)) [
        | inl t ↦ rw t (ground arith)
        | inr t ↦ rw t h
      ]

  All-closed :
      (stale os : List CoinTopUp)
      → All (λ (o : CoinTopUp). is_stale now o ≡ true → is_among o.id stale ≡ true) os
      → due (map (close_order stale) os) ≡ []
  All-closed stale [] h = refl
  All-closed stale (o ∷ os) (h, hs) = elim (Bool-cases (is_stale now o)) [
    | inl t ↦ rw (one_closed stale o (h t)) (All-closed stale os hs)
    | inr t ↦ rw (not_due stale o t) (All-closed stale os hs)
  ]
    where
      not_due :
          (stale : List CoinTopUp) (o : CoinTopUp)
          → is_stale now o ≡ false
          → is_stale now (close_order stale o) ≡ false
      not_due stale o t = ground arith

  module _ (q : Queries) where
    same_ids :
        (id : ℕ) (os : List CoinTopUp)
        → is_among id (q.order_top_ups (due os)) ≡ is_among id (due os)
    same_ids id os = any-perm (λ (o : CoinTopUp). o.id == id) (q.order_top_ups-perm (due os))

    -- A round with an order in its batch leaves fewer that are due.
    round_fewer :
        (os l : List CoinTopUp)
        → ((id : ℕ) → is_among id l ≡ is_among id (due os))
        → (length (take order_batch l) == 0) ≡ false
        → length (due (map (close_order (take order_batch l)) os)) + 1 ≤ length (due os)
    round_fewer os [] same h = absurd (cc)
    round_fewer os (o ∷ l) same h =
        let stale = take order_batch (o ∷ l) in
        fewer stale os (
          among_due o.id stale os (same_id o.id o (take 99 l) refl)
            (sym (same o.id) ∙ same_id o.id o l refl))

    -- A batch that is not full holds every order that is due.
    last_round :
        (os : List CoinTopUp)
        → ltb (length (take order_batch (q.order_top_ups (due os)))) order_batch ≡ true
        → due (map (close_order (take order_batch (q.order_top_ups (due os)))) os) ≡ []
    last_round os h =
        let whole = take-all order_batch (q.order_top_ups (due os)) (ltb→lt _ _ h) in
        All-closed (take order_batch (q.order_top_ups (due os))) os
          (All-map _ _ os (λ o p t. ap (is_among o.id) whole ∙ same_ids o.id os ∙ p t) (in_due os))

    nil_of_length : (l : List CoinTopUp) → length l ≡ 0 → l ≡ []
    nil_of_length [] h = refl
    nil_of_length (o ∷ l) h = absurd (omega arith)

    none_due :
        (os : List CoinTopUp)
        → (length (take order_batch (q.order_top_ups (due os))) == 0) ≡ true
        → due os ≡ []
    none_due os h =
        let no_row = (==_iff (length (take order_batch (q.order_top_ups (due os)))) 0).0 h in
        let whole = take-all order_batch (q.order_top_ups (due os)) (omega (arith, no_row)) in
        nil_of_length (due os)
          (sym (length-perm (q.order_top_ups-perm (due os))) ∙ ap length (sym whole) ∙ no_row)

    -- With more fuel than there are orders that are due, the sweep ends and leaves none.
    pub expire_due_orders_ends :
        (fuel : ℕ) (st : Orders)
        → length (due st.top_ups) < fuel
        → (n : ℕ) × (after : Orders) × (expire_due_orders q fuel now st ≡ some (n, after))
          × (due after.top_ups ≡ [])
    unfolding expire_due_orders stale_orders close_stale
    expire_due_orders_ends zero st h = absurd (omega arith)
    expire_due_orders_ends (suc fuel) st h =
        let stale = stale_orders q now st in
        let after = close_stale stale st in
        elim (Bool-cases (length stale == 0)) [
          | inl t ↦ (0, st, rw (expire_due_orders, t) refl, none_due st.top_ups t)
          | inr t ↦ elim (Bool-cases (ltb (length stale) order_batch)) [
            | inl u ↦ (
              closed_by stale st.top_ups,
              after,
              rw (expire_due_orders, t, u) refl,
              last_round st.top_ups u,
            )
            | inr u ↦
                let less =
                  round_fewer st.top_ups (q.order_top_ups (due st.top_ups))
                    (λ id. same_ids id st.top_ups) t in
                let (n, end, ends, clean) =
                  expire_due_orders_ends fuel after (omega (arith, less)) in
                (
                  closed_by stale st.top_ups + n,
                  end,
                  rw (expire_due_orders, t, u, ends) refl,
                  clean,
                )
          ]
        ]
