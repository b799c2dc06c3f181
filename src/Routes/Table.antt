-- ===== src/Routes/Table.antt =====
-- A ServeMux that keeps its documentation: a table of patterns, the longest of which is taken.
use mezzium.Base.{
  ◌≤◌, ◌<◌, ◌≡◌, refl, sym, ap, ◌∙◌, subst, ◌≢◌, ◌⊎◌, inl, inr, Bool, true, false, not, ◌&&◌, ◌||◌,
  Option, none, some, List, [], ◌∷◌, arith, leb, if◌then◌else◌, Bool-cases, Option-cases, length,
  In, All, All_at,
}
use mezzium.Text.{Str, ◌==◌}
use mezzium.Text.Laws.{eq_iff, eq_of_test}
use mezzium.Dict.{Dict, lookup, keys}
use mezzium.Dict.Distinct.{DistinctKeys}
use mezzium.Routes.{Endpoint, ServeMux, register}
use mezzium.Routes.Patterns.{matches, are_distinct, occurs, IsServeMux, none_matches_at}

unfoldable leads : (p path : Str) → List Str → Bool
unfolding matches
leads p path [] = true
leads p path (q ∷ qs) = (not (matches q path) || leb (length q) (length p)) && leads p path qs

unfoldable pub longest : (path : Str) → Dict Endpoint → Option Endpoint
unfolding matches leads
longest path [] = none
longest path ((p, e) ∷ ps) =
    if matches p path && leads p path (keys ps) then some e else longest path ps

abbrev pub table : ServeMux (Dict Endpoint)
table = record {
  new_serve_mux = [];
  handle = λ p e m. elim (lookup p m) [ none ↦ some ((p, e) ∷ m) | some old ↦ none ];
  handler = λ m path. longest path m;
  cleaned = λ path. path;
}

register_new :
    (p : Str) (e : Endpoint) (ps m : Dict Endpoint)
    → lookup p m ≡ none
    → register table ((p, e) ∷ ps) m ≡ register table ps ((p, e) ∷ m)
unfolding register
register_new p e ps m free = rw (free, register) refl

register_old :
    (p : Str) (e old : Endpoint) (ps m : Dict Endpoint)
    → lookup p m ≡ some old
    → register table ((p, e) ∷ ps) m ≡ none
unfolding register
register_old p e old ps m there = rw (there, register) refl

lookup-none : (p : Str) (m : Dict Endpoint) → lookup p m ≡ none → All (λ (j : Str). j ≢ p) (keys m)
unfolding lookup
lookup-none p [] h = tt
lookup-none p ((k, v) ∷ m) h = elim (Bool-cases (k == p)) [
  | inl same ↦ absurd (cc (same, h))
  | inr other ↦ ((λ e. cc ((eq_iff k p).1 e, other)), lookup-none p m (cc (other, h)))
]

occurs_not : (p q : Str) (ps : List Str) → occurs p ps ≡ false → In q ps → (p == q) ≡ false
unfolding occurs
occurs_not p q [] h i = absurd i
occurs_not p q (k ∷ ps) h (inl e) = elim (Bool-cases (p == q)) [
  | inl same ↦
      let at : k ≡ p = sym e ∙ sym (eq_of_test p q same) in
      absurd (ground (arith, h, (eq_iff k p).1 at))
  | inr other ↦ other
]
occurs_not p q (k ∷ ps) h (inr i) = occurs_not p q ps (ground (arith, h)) i

registers_from :
    (ps m : Dict Endpoint)
    → are_distinct (keys ps) ≡ true
    → ((p : Str) → In p (keys ps) → lookup p m ≡ none)
    → (n : Dict Endpoint) × (register table ps m ≡ some n)
unfolding register are_distinct lookup
registers_from [] m distinct free = (m, refl)
registers_from ((p, e) ∷ ps) m distinct free =
    let new : occurs p (keys ps) ≡ false = ground (arith, distinct) in
    let (n, done) =
      registers_from ps ((p, e) ∷ m) (ground (arith, distinct))
        (λ q i. rw (occurs_not p q (keys ps) new i, lookup) (free q (inr i))) in
    (n, register_new p e ps m (free p (inl refl)) ∙ done)

-- What is in the table after some patterns are registered.
abbrev IsTable : (ps m n : Dict Endpoint) → Type 0
IsTable ps m n =
    DistinctKeys n
    × ((x : Str × Endpoint) → In x m ⊎ In x ps → In x n)
    × ((q : Str) → In q (keys n) → In q (keys m) ⊎ In q (keys ps))

register-IsTable :
    (ps m n : Dict Endpoint) → DistinctKeys m → register table ps m ≡ some n → IsTable ps m n
unfolding register
register-IsTable [] m n d done =
    let same : m ≡ n = cc done in
    subst (IsTable [] m) same (d, (λ x i. elim i [ inl j ↦ j | inr j ↦ absurd j ]), (λ q i. inl i))
register-IsTable ((p, e) ∷ ps) m n d done = elim (Option-cases (lookup p m)) [
  | inl free ↦
      let (d', into, from) =
        register-IsTable ps ((p, e) ∷ m) n (lookup-none p m free, d)
          (sym (register_new p e ps m free) ∙ done) in
      (
        d',
        (λ x i. into x (elim i [
          | inl j ↦ inl (inr j)
          | inr j ↦ elim j [ inl k ↦ inl (inl k) | inr k ↦ inr k ]
        ])),
        (λ q i. elim (from q i) [
          | inl j ↦ elim j [ inl k ↦ inr (inl k) | inr k ↦ inl k ]
          | inr j ↦ inr (inr j)
        ]),
      )
  | inr (old, there) ↦ absurd (cc (register_old p e old ps m there, done))
]

leads_of :
    (p path : Str) (qs : List Str)
    → ((q : Str) → In q qs → matches q path ≡ true → length q < length p)
    → leads p path qs ≡ true
unfolding leads
leads_of p path [] h = refl
leads_of p path (q ∷ qs) h = elim (Bool-cases (matches q path)) [
  | inl e ↦ ground (arith, h q (inl refl) e, e, leads_of p path qs (λ k i. h k (inr i)))
  | inr e ↦ ground (arith, e, leads_of p path qs (λ k i. h k (inr i)))
]

leads_at :
    (p path q : Str) (qs : List Str)
    → leads p path qs ≡ true
    → In q qs
    → matches q path ≡ true
    → length q ≤ length p
unfolding leads
leads_at p path q [] h i e = absurd i
leads_at p path q (k ∷ qs) h (inl same) e =
    let e' : matches k path ≡ true = cc (same, e) in
    let le : length k ≤ length p = ground (arith, h, e') in rw same le
leads_at p path q (k ∷ qs) h (inr i) e = leads_at p path q qs (ground (arith, h)) i e

In-keys : (p : Str) (e : Endpoint) (m : Dict Endpoint) → In (p, e) m → In p (keys m)
In-keys p e [] i = i
In-keys p e ((k, v) ∷ m) (inl same) = inl (ap (λ (x : Str × Endpoint). x.0) same)
In-keys p e ((k, v) ∷ m) (inr i) = inr (In-keys p e m i)

longest_found :
    (m : Dict Endpoint) (p : Str) (e : Endpoint) (path : Str)
    → DistinctKeys m
    → In (p, e) m
    → matches p path ≡ true
    → ((q : Str) → In q (keys m) → matches q path ≡ true → q ≢ p → length q < length p)
    → longest path m ≡ some e
unfolding longest
longest_found [] p e path d i h most = absurd i
longest_found ((k, v) ∷ m) p e path d (inl same) h most =
    let here : p ≡ k = ap (λ (x : Str × Endpoint). x.0) same in
    let what : e ≡ v = ap (λ (x : Str × Endpoint). x.1) same in
    let first : matches k path ≡ true = cc (here, h) in
    let leader : leads k path (keys m) ≡ true = leads_of k path (keys m) (λ q i f.
      let ne : q ≢ p = λ x. All_at (λ (j : Str). j ≢ k) q (keys m) d.0 i (x ∙ here) in
      subst (λ (s : Str). length q < length s) here (most q (inr i) f ne)) in
    rw (first, longest) (rw leader (ap some (sym what)))
longest_found ((k, v) ∷ m) p e path d (inr i) h most =
    let rest : longest path m ≡ some e = longest_found m p e path d.1 i h (λ q j. most q (inr j)) in
    elim (Bool-cases (matches k path && leads k path (keys m))) [
      | inl both ↦
          let at = In-keys p e m i in
          let less : length k < length p =
            most k (inl refl) (ground (arith, both))
              (λ x. All_at (λ (j : Str). j ≢ k) p (keys m) d.0 at (sym x)) in
          let more : length p ≤ length k = leads_at k path p (keys m) (ground (arith, both)) at h in
          absurd (ground (arith, less, more))
      | inr not_here ↦ rw (not_here, longest) rest
    ]

longest-none :
    (m : Dict Endpoint) (path : Str)
    → ((q : Str) → In q (keys m) → matches q path ≡ false)
    → longest path m ≡ none
unfolding longest
longest-none [] path h = refl
longest-none ((k, v) ∷ m) path h =
    rw (h k (inl refl), longest) (longest-none m path (λ q i. h q (inr i)))

pub table-IsServeMux : IsServeMux table
unfolding lookup
table-IsServeMux = record {
  registers = λ ps plain distinct. registers_from ps [] distinct (λ p i. refl);
  finds = λ ps m done plain p e path clean i h most.
      let (d, into, from) = register-IsTable ps [] m tt done in
      longest_found m p e path d (into (p, e) (inr i)) h
        (λ q j f ne. elim (from q j) [ inl k ↦ absurd k | inr k ↦ most q k f ne ]);
  misses = λ ps m done plain path clean h h'.
      let (d, into, from) = register-IsTable ps [] m tt done in
      longest-none m path (λ q j. elim (from q j) [
        | inl k ↦ absurd k
        | inr k ↦ none_matches_at (keys ps) q path h k
      ]);
}
