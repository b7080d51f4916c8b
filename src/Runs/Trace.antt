-- ===== src/Runs/Trace.antt =====
-- The paged read of a run's events: `listAllUserEvents` of agent-run.repository.ts.
use at_nova_platform.Prelude.{
  ℕ, zero, suc, ◌-◌, ◌≤◌, ◌<◌, String, ◌≡◌, refl, sym, ap, ◌∙◌, inl, inr, Bool, true, false, ◌&&◌,
  ◌||◌, List, [], ◌∷◌, ◌++◌, some, arith, length, take, filter, all, ltb, leb, ltb→lt,
  if◌then◌else◌, Bool-cases, length-filter-le,
}
use at_nova_platform.Runs.{
  AgentRunEvent, AgentsDb, insert_event, order_events, is_visible, list_user_events_after,
  user_event_page_size, last_sequence, pages, list_all_user_events,
}

-- Every event comes later than the sequence given, in strict order.
pub data IsRising : ℕ → List AgentRunEvent → Type 0 where
  rising_nil : {n : ℕ} → IsRising n []
  rising_cons :
      {n : ℕ} {e : AgentRunEvent} {es : List AgentRunEvent}
      → n < e.sequence
      → IsRising e.sequence es
      → IsRising n (e ∷ es)

abbrev later : ℕ → List AgentRunEvent → List AgentRunEvent
later n = filter (λ (e : AgentRunEvent). ltb n e.sequence)

abbrev drop : ℕ → List AgentRunEvent → List AgentRunEvent
drop zero es = es
drop (suc k) [] = []
drop (suc k) (e ∷ es) = drop k es

later-all : (n m : ℕ) (es : List AgentRunEvent) → IsRising m es → n ≤ m → later n es ≡ es
later-all n m [] r le = refl
later-all n m (e ∷ es) (rising_cons lt r) le =
    let rest = later-all n e.sequence es r (omega arith) in ground arith

last-le : (k n : ℕ) (es : List AgentRunEvent) → IsRising n es → n ≤ last_sequence n (take k es)
last-le zero n es r = omega arith
last-le (suc k) n [] r = omega arith
last-le (suc k) n (e ∷ es) (rising_cons lt r) = omega (arith, lt, last-le k e.sequence es r)

-- After the events of a page come those that the page leaves.
later-drop :
    (k n : ℕ) (es : List AgentRunEvent)
    → IsRising n es
    → later (last_sequence n (take k es)) es ≡ drop k es
later-drop zero n es r = later-all n n es r (omega arith)
later-drop (suc k) n (e ∷ es) (rising_cons lt r) =
    let passed = last-le k e.sequence es r in
    let rest = later-drop k e.sequence es r in ground arith
later-drop (suc k) n [] r = refl

IsRising-drop :
    (k n : ℕ) (es : List AgentRunEvent)
    → IsRising n es
    → IsRising (last_sequence n (take k es)) (drop k es)
IsRising-drop zero n es r = r
IsRising-drop (suc k) n [] r = rising_nil
IsRising-drop (suc k) n (e ∷ es) (rising_cons lt r) = IsRising-drop k e.sequence es r

later-later : (n m : ℕ) (es : List AgentRunEvent) → n ≤ m → later m (later n es) ≡ later m es
later-later n m [] le = refl
later-later n m (e ∷ es) le = let rest = later-later n m es le in ground arith

length-drop : (k : ℕ) (es : List AgentRunEvent) → length (drop k es) ≡ length es - k
length-drop zero es = omega arith
length-drop (suc k) [] = omega arith
length-drop (suc k) (e ∷ es) = let rest = length-drop k es in omega arith

take-drop : (k : ℕ) (es : List AgentRunEvent) → take k es ++ drop k es ≡ es
take-drop zero es = refl
take-drop (suc k) [] = refl
take-drop (suc k) (e ∷ es) = ap (λ xs. e ∷ xs) (take-drop k es)

take-all : (k : ℕ) (es : List AgentRunEvent) → length (take k es) < k → take k es ≡ es
take-all zero es lt = absurd (omega (arith, lt))
take-all (suc k) [] lt = refl
take-all (suc k) (e ∷ es) lt = ap (λ xs. e ∷ xs) (take-all k es (omega arith))

take-none : (k : ℕ) (es : List AgentRunEvent) → 0 < k → length (take k es) ≤ 0 → es ≡ []
take-none zero es pos le = absurd (omega (arith, pos))
take-none (suc k) [] pos le = refl
take-none (suc k) (e ∷ es) pos le = absurd (omega (arith, le))

take-le : (k : ℕ) (es : List AgentRunEvent) → length (take k es) ≤ length es
take-le zero es = omega arith
take-le (suc k) [] = omega arith
take-le (suc k) (e ∷ es) = let rest = take-le k es in omega arith

not_ltb : (a b : ℕ) → ltb a b ≡ false → b ≤ a
not_ltb a b h = ground arith

-- Positive sequences, no two the same: `sequence` is 1-based and unique within a run.
pub data IsNumbered : List AgentRunEvent → Type 0 where
  numbered_nil : IsNumbered []
  numbered_cons :
      {e : AgentRunEvent} {es : List AgentRunEvent}
      → 0 < e.sequence
      → all (λ (x : AgentRunEvent). ltb e.sequence x.sequence || ltb x.sequence e.sequence) es
        ≡ true
      → IsNumbered es
      → IsNumbered (e ∷ es)

module _ (p : AgentRunEvent → Bool) where
  all-insert :
      (e : AgentRunEvent) (es : List AgentRunEvent)
      → p e ≡ true
      → all p es ≡ true
      → all p (insert_event e es) ≡ true
  all-insert e [] h hs = ground arith
  all-insert e (x ∷ xs) h hs = let rest = all-insert e xs h in ground arith

  all-order : (es : List AgentRunEvent) → all p es ≡ true → all p (order_events es) ≡ true
  all-order [] h = refl
  all-order (e ∷ es) h = all-insert e (order_events es) (ground arith) (all-order es (ground arith))

IsRising-insert :
    (n : ℕ) (e : AgentRunEvent) (es : List AgentRunEvent)
    → n < e.sequence
    → all (λ (x : AgentRunEvent). ltb e.sequence x.sequence || ltb x.sequence e.sequence) es ≡ true
    → IsRising n es
    → IsRising n (insert_event e es)
IsRising-insert n e [] lt apart r = rising_cons lt rising_nil
IsRising-insert n e (x ∷ xs) lt apart (rising_cons first r) =
    elim (Bool-cases (leb e.sequence x.sequence)) [
      | inl here ↦ rw here (rising_cons lt (rising_cons (ground arith) r))
      | inr further ↦
          rw further
            (rising_cons first (IsRising-insert x.sequence e xs (ground arith) (ground arith) r))
    ]

order-IsRising : (es : List AgentRunEvent) → IsNumbered es → IsRising 0 (order_events es)
order-IsRising [] numbered = rising_nil
order-IsRising (e ∷ es) (numbered_cons pos apart numbered) =
    IsRising-insert 0 e (order_events es) pos (all-order _ es apart) (order-IsRising es numbered)

later-insert :
    (n m : ℕ) (e : AgentRunEvent) (es : List AgentRunEvent)
    → IsRising m es
    → later n (insert_event e es)
      ≡ (if ltb n e.sequence then insert_event e (later n es) else later n es)
later-insert n m e [] r = refl
later-insert n m e (x ∷ xs) (rising_cons lt r) =
    let rest = later-insert n x.sequence e xs r in
    elim (Bool-cases (ltb n x.sequence)) [
      | inl before ↦ let whole = later-all n x.sequence xs r (ground arith) in ground arith
      | inr after ↦ ground arith
    ]

later-order :
    (n : ℕ) (es : List AgentRunEvent)
    → IsNumbered es
    → later n (order_events es) ≡ order_events (later n es)
later-order n [] numbered = refl
later-order n (e ∷ es) (numbered_cons pos apart numbered) =
    let rest = later-order n es numbered in
    let put = later-insert n 0 e (order_events es) (order-IsRising es numbered) in ground arith

filter-and :
    (p q : AgentRunEvent → Bool) (es : List AgentRunEvent)
    → filter (λ e. p e && q e) es ≡ filter p (filter q es)
filter-and p q [] = refl
filter-and p q (e ∷ es) = let rest = filter-and p q es in ground arith

module _ (db : AgentsDb) (run_id : String) (include_non_user : Bool)
    (numbered : IsNumbered (filter (is_visible run_id include_non_user) db.events)) where
  abbrev whole_trace : List AgentRunEvent
  whole_trace = order_events (filter (is_visible run_id include_non_user) db.events)

  page_is :
      (n limit : ℕ)
      → list_user_events_after db run_id n limit include_non_user ≡ take limit (later n whole_trace)
  unfolding list_user_events_after
  page_is n limit = ap (take limit) (
      ap order_events
        (filter-and (λ e. ltb n e.sequence) (is_visible run_id include_non_user) db.events)
      ∙ sym (later-order n _ numbered))

  -- Enough fuel for the events that are left reads them all.
  pages_read :
      (fuel n : ℕ) (left : List AgentRunEvent)
      → later n whole_trace ≡ left
      → IsRising n left
      → length left < fuel
      → pages fuel db run_id include_non_user n ≡ some left
  unfolding pages
  pages_read zero n left same rising enough = absurd (omega (arith, enough))
  pages_read (suc fuel) n left same rising enough =
      let size = user_event_page_size in
      let batch_is : list_user_events_after db run_id n size include_non_user ≡ take size left =
        page_is n size ∙ ap (take size) same in
      let next = last_sequence n (take size left) in
      let later_rest : later next whole_trace ≡ drop size left =
        sym (later-later n next whole_trace (last-le size n left rising))
        ∙ ap (later next) same
        ∙ later-drop size n left rising in
      elim (Bool-cases (ltb 0 (length (take size left)))) [
        | inr empty ↦
            let nothing = take-none size left (omega arith) (not_ltb _ _ empty) in
            rw (batch_is, empty) (ap some (sym nothing))
        | inl some_left ↦ elim (Bool-cases (ltb (length (take size left)) size)) [
          | inl short ↦
              rw (batch_is, some_left, short) (ap some (take-all size left (ltb→lt _ _ short)))
          | inr full ↦
              let shorter = length-drop size left in
              let fits = take-le size left in
              let many : size ≤ length (take size left) = not_ltb _ _ full in
              let rest =
                pages_read fuel next (drop size left) later_rest (IsRising-drop size n left rising)
                  (omega (arith, shorter, fits, many, enough)) in
              rw (batch_is, some_left, full, rest, batch_is) (ap some (take-drop size left))
        ]
      ]

length-order : (es : List AgentRunEvent) → length (order_events es) ≡ length es
length-order [] = refl
length-order (e ∷ es) = length-insert (order_events es) ∙ ap suc (length-order es)
  where
    length-insert : (xs : List AgentRunEvent) → length (insert_event e xs) ≡ suc (length xs)
    length-insert [] = refl
    length-insert (x ∷ xs) = let rest = length-insert xs in ground arith

-- When the events of the run that the reader may see are numbered from 1 on, no two alike, the
-- paged read stops, and returns them all in the order of their numbers.
pub list_all_user_events-all :
    (db : AgentsDb) (run_id : String) (include_non_user : Bool)
    → IsNumbered (filter (is_visible run_id include_non_user) db.events)
    → list_all_user_events db run_id include_non_user
      ≡ some (order_events (filter (is_visible run_id include_non_user) db.events))
unfolding list_all_user_events
list_all_user_events-all db run_id include_non_user numbered =
    let trace = whole_trace db run_id include_non_user numbered in
    let rising = order-IsRising _ numbered in
    let few = length-filter-le (is_visible run_id include_non_user) db.events in
    let same_length = length-order (filter (is_visible run_id include_non_user) db.events) in
    pages_read db run_id include_non_user numbered (suc (length db.events)) 0 trace
      (later-all 0 0 trace rising (omega arith)) rising (omega (arith, few, same_length))
