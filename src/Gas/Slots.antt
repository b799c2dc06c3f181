-- ===== src/Gas/Slots.antt =====
-- How servePolygonGas and the other servers of pkg/api/gas.go answer, and what they cache.
use mezzium.Base.{
  ℕ, ◌≡◌, refl, sym, ap, ◌∙◌, subst, ◌⊎◌, inl, inr, Option, none, some, ◌++◌, Bool-cases,
  Option-cases,
}
use mezzium.Base.Int.{ℤ, ◌<ℤ◌, ltb_ℤ, ltb_ℤ_iff, ◌+ℤ◌}
use mezzium.Text.{Str, str}
use mezzium.Dict.{lookup}
use mezzium.Registry.{Registry, best_of}
use mezzium.Gas.{
  Kind, OracleApi, Entry, Response, json, Slot, unexpired, ask, filled, init_once, serve_slot,
}
use mezzium.Gas.Asking.{Asked, ask-Asked, Asked-json}

cached_slot :
    {O : Type 0} (api : OracleApi O) (r : Registry) (now later : ℤ) (kind : Kind) (network : Str)
    (o : O) (body : Str) (e : ℤ)
    → now <ℤ e
    → let s : Slot O = record { oracle = some o; cache = some (record { b = body; exp = e }) } in
      serve_slot api r now later kind network s ≡ (json 200 body, s)
unfolding serve_slot unexpired init_once
cached_slot api r now later kind network o body e soon =
    rw ((ltb_ℤ_iff now e).1 soon, serve_slot) refl

module _ {O : Type 0} (api : OracleApi O) (r : Registry) (now later : ℤ) (kind : Kind)
    (network : Str) (s : Slot O) where
  -- The oracle that serves the request: the one that is there, or else a new one for the network.
  abbrev pub serving : O
  serving = elim s.oracle [ none ↦ api.new_oracle kind (lookup network r) | some o ↦ o ]

  -- No cache that is filled lasts beyond now.
  abbrev pub IsExpired : Type 0
  IsExpired = (e : Entry) → s.cache ≡ some e → ¬ (now <ℤ e.exp)

  -- The cache after an answer: bytes that are to be cached last for the oracle's TTL.
  abbrev pub IsCached : Option Str → Option Entry → Type 0
  IsCached none c = c ≡ s.cache
  IsCached (some b) c = c ≡ some (record { b = b; exp = later +ℤ api.ttl_duration serving })

  -- What a request leaves in the slot and answers, in each case.
  pub data Served (a : Response × Slot O) : Type 0 where
    from_cache :
        (e : Entry)
        → s.cache ≡ some e
        → now <ℤ e.exp
        → a ≡ (json 200 e.b, record { oracle = some serving; cache = s.cache })
        → Served a
    asked :
        (q : Response × Option Str) (cache : Option Entry)
        → IsExpired
        → Asked api serving (best_of r network) q
        → IsCached q.1 cache
        → a ≡ (q.0, record { oracle = some serving; cache = cache })
        → Served a

  unexpired-cases :
      (c : Option Entry)
      → ((e : Entry) × (c ≡ some e) × (now <ℤ e.exp) × (unexpired now c ≡ some e.b))
        ⊎ (((e : Entry) → c ≡ some e → ¬ (now <ℤ e.exp)) × (unexpired now c ≡ none))
  unfolding unexpired
  unexpired-cases none = inr ((λ e h. absurd (cc h)), refl)
  unexpired-cases (some e) = elim (Bool-cases (ltb_ℤ now e.exp)) [
    | inl on ↦ inl (e, refl, (ltb_ℤ_iff now e.exp).0 on, rw (on, unexpired) refl)
    | inr off ↦ inr (
      (λ f h lt.
          let same : e ≡ f = cc h in
          cc (off, (ltb_ℤ_iff now e.exp).1 (subst (λ (x : Entry). now <ℤ x.exp) (sym same) lt))),
      rw (off, unexpired) refl,
    )
  ]

  filled-IsCached : (q : Option Str) → IsCached q (filled api later serving q s.cache)
  unfolding filled
  filled-IsCached none = refl
  filled-IsCached (some b) = refl

  init_once-serving : init_once api kind network r s.oracle ≡ serving
  unfolding init_once
  init_once-serving = elim (Option-cases s.oracle) [ inl e ↦ rw e refl | inr (o, e) ↦ rw e refl ]

  serve_slot_cached :
      (b : Str)
      → unexpired now s.cache ≡ some b
      → serve_slot api r now later kind network s
        ≡ (json 200 b, record { oracle = some serving; cache = s.cache })
  unfolding serve_slot
  serve_slot_cached b e = rw (e, init_once-serving, serve_slot) refl

  -- The answer to a request that the cache does not serve, and what is to be cached.
  abbrev answer_of : Response × Option Str
  answer_of = ask api serving (best_of r network) (str "no " ++ network ++ str " nodes")

  serve_slot_uncached :
      unexpired now s.cache ≡ none
      → serve_slot api r now later kind network s ≡ (
        answer_of.0,
        record { oracle = some serving; cache = filled api later serving answer_of.1 s.cache },
      )
  unfolding serve_slot
  serve_slot_uncached e = rw (e, init_once-serving, serve_slot) refl

  -- A request is answered from the cache until that expires; only then the external service is
  -- asked, and only if that does not answer with success the nodes of the network in turn, of which
  -- the first that gives a price decides; bytes that are sent as a price are cached for the
  -- oracle's TTL, and an error is 503 without nodes, 502 without a price, and never cached.
  pub serve_slot-Served : Served (serve_slot api r now later kind network s)
  serve_slot-Served = elim (unexpired-cases s.cache) [
    | inl (e, there, on, hit) ↦ from_cache e there on (serve_slot_cached e.b hit)
    | inr (off, miss) ↦
        asked answer_of (filled api later serving answer_of.1 s.cache) off
          (ask-Asked api serving (best_of r network) (str "no " ++ network ++ str " nodes"))
          (filled-IsCached answer_of.1) (serve_slot_uncached miss)
  ]

  -- A price that is sent and was not cached is sent again, with status 200, to each request that
  -- comes before the TTL of the oracle is over, whatever the oracles, the registry and the upstreams
  -- would then say; and that request changes nothing.
  pub serve_slot_replay :
      (code : ℕ) (body : Str) (api' : OracleApi O) (r' : Registry) (now' later' : ℤ)
      → unexpired now s.cache ≡ none
      → (serve_slot api r now later kind network s).0 ≡ json code body
      → now' <ℤ later +ℤ api.ttl_duration serving
      → serve_slot api' r' now' later' kind network (serve_slot api r now later kind network s).1
        ≡ (json 200 body, (serve_slot api r now later kind network s).1)
  unfolding serve_slot filled unexpired init_once
  serve_slot_replay code body api' r' now' later' miss sent soon =
      let stored : answer_of.1 ≡ some body =
        Asked-json api serving (best_of r network) answer_of code body
          (ask-Asked api serving (best_of r network) _)
          (sym (ap (λ (p : Response × Slot O). p.0) (serve_slot_uncached miss)) ∙ sent) in
      rw (serve_slot_uncached miss) (
        rw stored (
          cached_slot api' r' now' later' kind network serving body
            (later +ℤ api.ttl_duration serving) soon))
