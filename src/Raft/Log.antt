-- ===== src/Raft/Log.antt =====
-- src/consensus/raft/state.rs: the log, its indices and its replication.
use bft_consensus_bench.Base.{
  ℕ, zero, suc, ◌+◌, ◌≤◌, ◌<◌, ◌≡◌, refl, ◌∙◌, sym, subst, ◌⊎◌, false, none, some, List, [], ◌∷◌,
  ◌++◌, arith, ◌==◌, length, get_elem?, take, length-append, sub_u64, u64_mod, inl, inr,
  Option-cases, Bool-cases, ==_iff,
}
use bft_consensus_bench.Network.{LogEntry}
use bft_consensus_bench.Raft.Replication.{append_entry, append_all}

-- The entries have the indices `start + 1`, `start + 2`, ...
abbrev pub IsIndexed : ℕ → List LogEntry → Type 0
IsIndexed start [] = Unit
IsIndexed start (e ∷ log) = (e.index ≡ start + 1) × IsIndexed (start + 1) log

append-IsIndexed :
    (start : ℕ) (log : List LogEntry) (e : LogEntry)
    → IsIndexed start log
    → e.index ≡ start + length log + 1
    → IsIndexed start (log ++ e ∷ [])
append-IsIndexed start [] e h eq = (omega arith, tt)
append-IsIndexed start (x ∷ log) e h eq =
    (h.0, append-IsIndexed (start + 1) log e h.1 (omega arith))

take-IsIndexed :
    (start k : ℕ) (log : List LogEntry) → IsIndexed start log → IsIndexed start (take k log)
take-IsIndexed start zero log h = tt
take-IsIndexed start (suc k) [] h = tt
take-IsIndexed start (suc k) (x ∷ log) h = (h.0, take-IsIndexed (start + 1) k log h.1)

length-take_of_some :
    {A : Type 0} (xs : List A) (k : ℕ) (x : A)
    → get_elem? xs k ≡ some x
    → (length (take k xs) ≡ k) × (k < length xs)
length-take_of_some [] k x h = cc
length-take_of_some (y ∷ xs) zero x h = (refl, omega arith)
length-take_of_some (y ∷ xs) (suc k) x h =
    let (e, lt) = length-take_of_some xs k x h in (omega arith, omega arith)

pub get_elem?-none : {A : Type 0} (xs : List A) (k : ℕ) → get_elem? xs k ≡ none → length xs ≤ k
get_elem?-none [] k h = omega arith
get_elem?-none (y ∷ xs) zero h = cc
get_elem?-none (y ∷ xs) (suc k) h = omega (arith, get_elem?-none xs k h)

-- One round of the loop, on an entry that the log reaches up to or overlaps.
record Appended (log log' : List LogEntry) (k : ℕ) (entry : LogEntry) : Type 0 where
  indexed : IsIndexed 0 log'
  longer : k < length log'
  at : LogEntry
  found : get_elem? log' k ≡ some at
  term : at.term ≡ entry.term
  taken : (at ≡ entry) ⊎ (get_elem? log k ≡ some at)
  behind : (j : ℕ) (x : LogEntry) → k < j → get_elem? log' j ≡ some x → get_elem? log j ≡ some x
  before : (j : ℕ) → j < k → get_elem? log' j ≡ get_elem? log j

get_elem?-snoc : {A : Type 0} (xs : List A) (x : A) → get_elem? (xs ++ x ∷ []) (length xs) ≡ some x
get_elem?-snoc [] x = refl
get_elem?-snoc (y ∷ xs) x = get_elem?-snoc xs x

get_elem?-append_left :
    {A : Type 0} (xs ys : List A) (j : ℕ) → j < length xs → get_elem? (xs ++ ys) j ≡ get_elem? xs j
get_elem?-append_left [] ys j lt = absurd (omega arith)
get_elem?-append_left (x ∷ xs) ys zero lt = refl
get_elem?-append_left (x ∷ xs) ys (suc j) lt = get_elem?-append_left xs ys j (omega arith)

get_elem?-take :
    {A : Type 0} (xs : List A) (k j : ℕ) → j < k → get_elem? (take k xs) j ≡ get_elem? xs j
get_elem?-take xs zero j lt = absurd (omega arith)
get_elem?-take [] (suc k) j lt = refl
get_elem?-take (x ∷ xs) (suc k) zero lt = refl
get_elem?-take (x ∷ xs) (suc k) (suc j) lt = get_elem?-take xs k j (omega arith)

-- Nothing stands behind the end.
get_elem?-beyond :
    {A : Type 0} (xs : List A) (j : ℕ) (x : A) → length xs ≤ j → get_elem? xs j ≡ some x → ⊥
get_elem?-beyond [] j x le h = cc
get_elem?-beyond (y ∷ xs) zero x le h = omega arith
get_elem?-beyond (y ∷ xs) (suc j) x le h = get_elem?-beyond xs j x (omega arith) h

pub append_entry-conflict :
    (log : List LogEntry) (k : ℕ) (entry old : LogEntry)
    → sub_u64 entry.index 1 ≡ k
    → get_elem? log k ≡ some old
    → (old.term == entry.term) ≡ false
    → append_entry log entry ≡ take k log ++ entry ∷ []
unfolding append_entry
append_entry-conflict log k entry old at_k e other = ground arith

append_entry-Appended :
    (log : List LogEntry) (k : ℕ) (entry : LogEntry)
    → IsIndexed 0 log
    → k ≤ length log
    → k + 1 < u64_mod
    → entry.index ≡ k + 1
    → Appended log (append_entry log entry) k entry
unfolding append_entry
append_entry-Appended log k entry indexed le small eq =
    let at_k : sub_u64 entry.index 1 ≡ k = omega arith in
    elim (Option-cases (get_elem? log k)) [
      | inl e ↦
          let all : k ≡ length log = omega (arith, get_elem?-none log k e) in
          rw (at_k, e, append_entry)
            (record {
              indexed = append-IsIndexed 0 log entry indexed (omega arith);
              longer = omega (arith, length-append log (entry ∷ []));
              at = entry;
              found = rw all (get_elem?-snoc log entry);
              term = refl;
              taken = inl refl;
              behind = λ j x lt h. absurd (
                  get_elem?-beyond (log ++ entry ∷ []) j x
                    (omega (arith, length-append log (entry ∷ []))) h);
              before = λ j lt. get_elem?-append_left log (entry ∷ []) j (omega arith);
            })
      | inr (old, e) ↦
          let (cut, inside) = length-take_of_some log k old e in
          elim (Bool-cases (old.term == entry.term)) [
            | inl same ↦
                rw (at_k, e, same, append_entry)
                  (record {
                    indexed = indexed;
                    longer = inside;
                    at = old;
                    found = e;
                    term = (==_iff _ _).0 same;
                    taken = inr e;
                    behind = λ j x lt h. h;
                    before = λ j lt. refl;
                  })
            | inr other ↦
                subst (λ l. Appended log l k entry)
                  (sym (append_entry-conflict log k entry old at_k e other))
                  (record {
                    indexed =
                        append-IsIndexed 0 (take k log) entry (take-IsIndexed 0 k log indexed)
                          (omega (arith, cut));
                    longer = omega (arith, length-append (take k log) (entry ∷ []), cut);
                    at = entry;
                    found =
                        subst (λ i. get_elem? (take k log ++ entry ∷ []) i ≡ some entry) cut
                          (get_elem?-snoc (take k log) entry);
                    term = refl;
                    taken = inl refl;
                    behind = λ j x lt h. absurd (
                        get_elem?-beyond (take k log ++ entry ∷ []) j x
                          (omega (arith, length-append (take k log) (entry ∷ []), cut)) h);
                    before = λ j lt.
                        get_elem?-append_left (take k log) (entry ∷ []) j (omega (arith, cut))
                        ∙ get_elem?-take log k j lt;
                  })
          ]
    ]

-- The log `log'` has, from position `start` on, each new entry itself, or the entry of the same term
-- that `log` had at its place.
abbrev pub Holds : List LogEntry → List LogEntry → ℕ → List LogEntry → Type 0
Holds log log' start [] = Unit
Holds log log' start (e ∷ entries) =
    ((at : LogEntry) × (get_elem? log' start ≡ some at)
      × ((at ≡ e) ⊎ ((get_elem? log start ≡ some at) × (at.term ≡ e.term))))
    × Holds log log' (start + 1) entries

-- The log `log'` after the entries, from position `start` on, have been put into `log`.
pub record Replicates (log log' : List LogEntry) (start : ℕ) (entries : List LogEntry)
    : Type 0 where
  pub indexed : IsIndexed 0 log'
  pub holds : Holds log log' start entries
  pub longer : start + length entries ≤ length log'
  pub before : (j : ℕ) → j < start → get_elem? log' j ≡ get_elem? log j
  pub behind :
      (j : ℕ) (x : LogEntry)
      → start + length entries ≤ j
      → get_elem? log' j ≡ some x
      → get_elem? log j ≡ some x

-- What holds of a log that had nothing else behind some position.
Holds-of_behind :
    (log mid log' : List LogEntry) (start : ℕ) (entries : List LogEntry)
    → ((j : ℕ) (x : LogEntry) → start ≤ j → get_elem? mid j ≡ some x → get_elem? log j ≡ some x)
    → Holds mid log' start entries
    → Holds log log' start entries
Holds-of_behind log mid log' start [] back h = tt
Holds-of_behind log mid log' start (e ∷ entries) back ((at, found, taken), h) = (
  (
    at,
    found,
    elim taken [
      | inl new ↦ inl new
      | inr (old, term) ↦ inr (back start at (omega arith) old, term)
    ],
  ),
  Holds-of_behind log mid log' (start + 1) entries (λ j x le. back j x (omega arith)) h,
)

-- A follower whose log is indexed from 1, and that takes entries whose indices go on from a position
-- within or right after the log, has a log indexed from 1 again. At the place of each entry that
-- log has the entry itself, or the one of the same term that was there before; in front of them it
-- is as before; and behind them it has nothing that was not at the same place before.
pub append_all-Replicates :
    (log : List LogEntry) (start : ℕ) (entries : List LogEntry)
    → IsIndexed 0 log
    → start ≤ length log
    → start + length entries + 1 < u64_mod
    → IsIndexed start entries
    → Replicates log (append_all log entries) start entries
unfolding append_all
append_all-Replicates log start [] indexed le small ix = record {
  indexed = indexed;
  holds = tt;
  longer = omega arith;
  before = λ j lt. refl;
  behind = λ j x lt h. h;
}
append_all-Replicates log start (e ∷ entries) indexed le small ix =
    let mid = append_entry log e in
    let one = append_entry-Appended log start e indexed le (omega arith) ix.0 in
    let more =
      append_all-Replicates mid (start + 1) entries one.indexed (omega (arith, one.longer))
        (omega arith) ix.1 in
    record {
      indexed = more.indexed;
      holds = (
        (
          one.at,
          (more.before start (omega arith) ∙ one.found),
          elim one.taken [ inl new ↦ inl new | inr old ↦ inr (old, one.term) ],
        ),
        Holds-of_behind log mid (append_all mid entries) (start + 1) entries
            (λ j x le. one.behind j x (omega arith)) more.holds,
      );
      longer = omega (arith, more.longer);
      before = λ j lt. more.before j (omega arith) ∙ one.before j lt;
      behind = λ j x lt h. one.behind j x (omega arith) (more.behind j x (omega arith) h);
    }
