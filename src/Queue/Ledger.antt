-- ===== src/Queue/Ledger.antt =====
-- A queue table beside its table of attempts: every claim numbers one attempt, and a number is
-- recorded at most once. Both queues of queue.go keep this.
use mathlib.Core.Bool.{false≢true}
use mathlib.Core.List.{Memᴰ}
use index_01_hook.Base.{
  ℕ, ◌+◌, ◌≤◌, ◌<◌, ◌≡◌, refl, sym, ap, ◌∙◌, ◌≢◌, inl, inr, Bool, true, false, ◌&&◌, List, [], ◌∷◌,
  ◌++◌, arith, ◌==◌, if◌then◌else◌, Bool-cases, All, All-mono, All-append, All-zip,
}
use index_01_hook.Base.Rows.{any_row, any_row-append, update_rows}
use index_01_hook.Base.Keys.{
  Distinct, Distinct-update_rows, Distinct-snoc, mem-All, Names, update_rows-one, update_rows-both,
  only_row,
}
use index_01_hook.Queue.Types.{Outcome, Attempt}
use index_01_hook.Queue.Schema.{ok, insert_attempt}

abbrev pub slack : Bool → ℕ
slack b = if b then 1 else 0

module _ {ℓ} {A : Type ℓ} (key count : A → ℕ) (held : A → Bool) where
  -- The number of a recorded attempt, and of the one that a lease holds, is within the row's count.
  abbrev pub Bounded : A → Attempt → Type 0
  Bounded r a = a.of ≡ key r → a.attempt_number + slack (held r) ≤ count r

  abbrev pub Counted : List Attempt → A → Type 0
  Counted attempts r = All (Bounded r) attempts × (held r ≡ true → 0 < count r)

  abbrev pub Owned : List A → Attempt → Type 0
  Owned rows a = any_row (λ r. key r == a.of) rows ≡ true

  pub record Ledger (rows : List A) (attempts : List Attempt) : Type 0 where
    pub ids : Distinct key rows
    pub counted : All (Counted attempts) rows
    pub owned : All (Owned rows) attempts

  any_row-update_rows :
      (k : ℕ) (p : A → Bool) (f : A → A) (rows : List A)
      → ((r : A) → key (f r) ≡ key r)
      → any_row (λ r. key r == k) (update_rows p f rows) ≡ any_row (λ r. key r == k) rows
  unfolding any_row update_rows
  any_row-update_rows k p f [] same = refl
  any_row-update_rows k p f (x ∷ xs) same = elim (Bool-cases (p x)) [
    | inl e ↦ rw (e, same x, any_row-update_rows k p f xs same)
    | inr e ↦ rw (e, any_row-update_rows k p f xs same)
  ]

  Owned-update_rows :
      (p : A → Bool) (f : A → A) (rows : List A) (attempts : List Attempt)
      → ((r : A) → key (f r) ≡ key r)
      → All (Owned rows) attempts
      → All (Owned (update_rows p f rows)) attempts
  Owned-update_rows p f rows attempts same h =
      All-mono (Owned rows) (Owned (update_rows p f rows)) attempts
        (λ a o. any_row-update_rows a.of p f rows same ∙ o) h

  -- An update of one row that keeps its key and does not lower its count.
  pub Ledger-update :
      (p : A → Bool) (f : A → A) (j : A) (rows : List A) (attempts : List Attempt)
      → ((r : A) → key (f r) ≡ key r)
      → Memᴰ j rows
      → Names key p j
      → count j + slack (held (f j)) ≤ count (f j) + slack (held j)
      → (held (f j) ≡ true → 0 < count (f j))
      → Ledger rows attempts
      → Ledger (update_rows p f rows) attempts
  Ledger-update p f j rows attempts same m names grows positive h = record {
    ids = Distinct-update_rows key p f rows same h.ids;
    counted =
        update_rows-one key p j (Counted attempts) f rows h.ids m names
          (λ old. (
            All-mono (Bounded j) (Bounded (f j)) attempts
                (λ a b e. let fits = b (e ∙ same j) in omega arith) old.0,
            positive,
          ))
          h.counted;
    owned = Owned-update_rows p f rows attempts same h.owned;
  }

  any_row-key : (j : A) (rows : List A) → Memᴰ j rows → any_row (λ r. key r == key j) rows ≡ true
  unfolding any_row
  any_row-key j [] m = elim m [ ]
  any_row-key j (x ∷ xs) (Memᴰ.head e) = ground (arith, ap key e)
  any_row-key j (x ∷ xs) (Memᴰ.tail m) = ground (arith, any_row-key j xs m)

  number-ne :
      (attempts : List Attempt) (j : A)
      → held j ≡ true
      → All (Bounded j) attempts
      → any_row (λ (a : Attempt). a.of == key j && a.attempt_number == count j) attempts ≡ false
  unfolding any_row
  number-ne [] j hj h = refl
  number-ne (a ∷ attempts) j hj h = ground (arith, h.0, number-ne attempts j hj h.1)

  -- The attempt of a held row is new: its insertion succeeds.
  pub insert_attempt-held :
      (checked : Outcome → Bool) (c : Outcome) (now : ℕ) (j : A) (rows : List A)
      (attempts : List Attempt)
      → Ledger rows attempts
      → Memᴰ j rows
      → held j ≡ true
      → checked c ≡ true
      → let a : Attempt = record {
        of = key j;
        attempt_number = count j;
        classification = c;
        created_at = now;
      } in
        insert_attempt checked a attempts ≡ ok (attempts ++ (a ∷ []))
  unfolding insert_attempt
  insert_attempt-held checked c now j rows attempts h m hj hc =
      let counted = mem-All (Counted attempts) rows j h.counted m in
      ground (arith, counted.1 hj, number-ne attempts j hj counted.0)

  Ledger-record :
      (a : Attempt) (rows : List A) (attempts : List Attempt)
      → All (λ r. Bounded r a) rows
      → Owned rows a
      → Ledger rows attempts
      → Ledger rows (attempts ++ (a ∷ []))
  Ledger-record a rows attempts bounded owned h = record {
    ids = h.ids;
    counted =
        All-zip (Counted attempts) (λ r. Bounded r a) (Counted (attempts ++ (a ∷ []))) rows
          (λ r c b. (All-append (Bounded r) attempts (a ∷ []) c.0 (b, tt), c.1)) h.counted bounded;
    owned = All-append (Owned rows) attempts (a ∷ []) h.owned (owned, tt);
  }

  -- The end of an attempt: its number is recorded and the row's lease is given up.
  pub Ledger-finish :
      (p : A → Bool) (f : A → A) (a : Attempt) (j : A) (rows : List A) (attempts : List Attempt)
      → ((r : A) → key (f r) ≡ key r)
      → Memᴰ j rows
      → Names key p j
      → a.of ≡ key j
      → a.attempt_number ≡ count j
      → p j ≡ true
      → held j ≡ true
      → held (f j) ≡ false
      → count (f j) ≡ count j
      → Ledger rows attempts
      → Ledger (update_rows p f rows) (attempts ++ (a ∷ []))
  Ledger-finish p f a j rows attempts same m names of number hit hj free kept h =
      Ledger-record a (update_rows p f rows) attempts
        (update_rows-both (λ r. key r ≡ key j → r ≡ j) (λ r. Bounded r a) p f rows
          (λ r only q e. rw (only (names r q), free, kept) (omega arith))
          (λ r only q e. absurd (false≢true (sym q ∙ ap p (only (sym e ∙ of)) ∙ hit)))
          (only_row key rows j h.ids m))
        (any_row-update_rows a.of p f rows same ∙ (rw of (any_row-key j rows m)))
        (Ledger-update p f j rows attempts same m names (rw (free, kept) (omega arith))
          (λ e. absurd (false≢true (sym free ∙ e))) h)

  -- A new row, whose key no row and so no attempt has.
  pub Ledger-snoc :
      (j : A) (rows : List A) (attempts : List Attempt)
      → All (λ r. key r ≢ key j) rows
      → held j ≡ false
      → Ledger rows attempts
      → Ledger (rows ++ (j ∷ [])) attempts
  unfolding any_row
  Ledger-snoc j rows attempts away free h = record {
    ids = Distinct-snoc key rows j away h.ids;
    counted =
        All-append (Counted attempts) rows (j ∷ []) h.counted
          ((new_bounded attempts h.owned, (λ e. absurd (false≢true (sym free ∙ e)))), tt);
    owned =
        All-mono (Owned rows) (Owned (rows ++ (j ∷ []))) attempts
          (λ a o. any_row-append (λ r. key r == a.of) rows (j ∷ []) ∙ (rw o)) h.owned;
  }
    where
      absent :
          (k : ℕ) (rs : List A) → All (λ r. key r ≢ k) rs → any_row (λ r. key r == k) rs ≡ false
      absent k [] w = refl
      absent k (x ∷ xs) w = ground (arith, w.0, absent k xs w.1)

      new_bounded : (log : List Attempt) → All (Owned rows) log → All (Bounded j) log
      new_bounded [] o = tt
      new_bounded (a ∷ log) o = (
        (λ e. absurd (false≢true (sym (absent (key j) rows away) ∙ (rw e at o.0)))),
        new_bounded log o.1,
      )
