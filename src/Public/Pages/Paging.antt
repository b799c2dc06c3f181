-- ===== src/Public/Pages/Paging.antt =====
-- The pages of NFTGetAllNFTs.
use mezzium.Base.{
  ℕ, zero, suc, ◌+◌, ◌-◌, ◌%◌, ◌^◌, ◌≤◌, ◌<◌, ◌⊎◌, inl, inr, not, ◌||◌, Option, none, some, List,
  [], ◌∷◌, arith, ltb, Bool-cases, Option-cases, length, length-append,
}
use mezzium.Text.{Str, str, ◌==◌, has_prefix, trim_prefix}
use mezzium.Registry.{Registry}
use mezzium.Registry.Pick.{NodeWithPing}
use mezzium.Proxy.{logged_answer, Outgoing, Answer, Messages}
use mezzium.Adapters.Abi.{
  build_supports_interface_data, build_balance_of_data, build_token_of_owner_by_index_data,
}
use mezzium.Public.{Calls, call_first_2xx}
use mezzium.Public.Endpoints.{
  Library, PublicRequest, NftPage, Reply, status_only, json, page, http_error, min_uint,
  result_hex_string, hex_quantity, query_param, trim_space, eth_call_payload,
}
use mezzium.Public.Pages.{
  item_of, add_items, nft_items, page_length, written, nft_page, nft_balance, nft_supports,
  limit_of, offset_of, nft_get_all_nfts,
}

module _ (lib : Library) (decode : Str → Option Messages) (send : ℕ → Outgoing → Option Answer)
    (clock : ℕ → ℕ) where
  length-item_of : (a : Option Answer) → length (item_of lib decode send clock a) ≤ 1
  unfolding item_of
  length-item_of none = omega arith
  length-item_of (some a) = elim (Bool-cases ((logged_answer a).body == [])) [
    | inl e ↦ rw (e, item_of) (omega arith)
    | inr e ↦
        rw (e, item_of) (one_at_most (result_hex_string (lib.read_result (logged_answer a).body)))
  ]
    where
      one_at_most :
          (h : Str)
          → length {A = Str} (elim h as (λ x. List Str) [ [] ↦ [] | c ∷ cs ↦ (c ∷ cs) ∷ [] ]) ≤ 1
      one_at_most [] = omega arith
      one_at_most (c ∷ cs) = omega arith

  -- The items are at most as many as the rounds.
  abbrev IsShort : ℕ → Option (List Str × Calls) → Type 0
  IsShort k none = Unit
  IsShort k (some (items, s)) = length items ≤ k

  add_items-IsShort :
      (k : ℕ) (items : List Str) (o : Option (List Str × Calls))
      → length items ≤ 1
      → IsShort k o
      → IsShort (suc k) (add_items items o)
  unfolding add_items
  add_items-IsShort k items none h i = tt
  add_items-IsShort k items (some (rest, s)) h i = omega (arith, length-append items rest, h, i)

  nft_items-IsShort :
      (nodes : List NodeWithPing) (owner contract : Str) (rounds idx : ℕ) (s : Calls)
      → IsShort rounds (nft_items lib decode send clock nodes owner contract rounds idx s)
  unfolding nft_items
  nft_items-IsShort nodes owner contract zero idx s = omega arith
  nft_items-IsShort nodes owner contract (suc rounds) idx s =
      elim (Option-cases (build_token_of_owner_by_index_data owner (idx % 2 ^ 64))) [
        | inl e ↦ rw (e, nft_items) tt
        | inr (input, e) ↦
            let call =
              call_first_2xx decode send clock nodes (eth_call_payload lib.quote contract input)
                s in
            rw (e, nft_items)
              (add_items-IsShort rounds (item_of lib decode send clock call.0) _
                (length-item_of call.0)
                (nft_items-IsShort nodes owner contract rounds (idx + 1) call.1))
      ]

  -- What a reply with a page holds.
  abbrev pub IsPage : ℕ → ℕ → NftPage → Type 0
  IsPage limit offset p =
      (length p.items ≤ limit) × ((p.total < offset) ⊎ (length p.items + offset ≤ p.total))

  abbrev pub HoldsPage : ℕ → ℕ → Option (Reply × Calls) → Type 0
  HoldsPage limit offset none = Unit
  HoldsPage limit offset (some (status_only code, s)) = Unit
  HoldsPage limit offset (some (json code body, s)) = Unit
  HoldsPage limit offset (some (page p, s)) = IsPage limit offset p
  HoldsPage limit offset (some (http_error code message, s)) = Unit

  page_length-le :
      (limit offset total : ℕ)
      → (page_length limit offset total ≤ limit)
        × ((total < offset) ⊎ (page_length limit offset total + offset ≤ total))
  unfolding page_length min_uint
  page_length-le limit offset total = elim (Bool-cases (ltb total offset)) [
    | inl e ↦ (ground arith, inl (ground (arith, e)))
    | inr e ↦
        let within : offset ≤ total = ground (arith, e) in
        let rest : (total + 2 ^ 64 - offset) % 2 ^ 64 + offset ≤ total = omega arith in
        (ground arith, inr (ground (arith, rest)))
  ]

  written-HoldsPage :
      (owner contract : Str) (limit offset total rounds : ℕ) (o : Option (List Str × Calls))
      → IsShort rounds o
      → (rounds ≤ limit) × ((total < offset) ⊎ (rounds + offset ≤ total))
      → HoldsPage limit offset (written owner contract total o)
  unfolding written
  written-HoldsPage owner contract limit offset total rounds none h k = tt
  written-HoldsPage owner contract limit offset total rounds (some (items, s)) h (k, inl past) =
      (omega arith, inl past)
  written-HoldsPage owner contract limit offset total rounds (some (items, s)) h (k, inr within) =
      (omega arith, inr (omega arith))

  nft_page-HoldsPage :
      (nodes : List NodeWithPing) (owner contract : Str) (limit offset : ℕ)
      (r : Option Answer × Calls)
      → HoldsPage limit offset (nft_page lib decode send clock nodes owner contract limit offset r)
  unfolding nft_page
  nft_page-HoldsPage nodes owner contract limit offset (none, s) = tt
  nft_page-HoldsPage nodes owner contract limit offset (some a, s) =
      let total = hex_quantity (lib.read_result (logged_answer a).body) in
      let rounds = page_length limit offset total in
      elim (Bool-cases ((logged_answer a).body == [])) [
        | inl e ↦ rw (e, nft_page) tt
        | inr e ↦ elim (Bool-cases (lib.fits_slice rounds)) [
          | inl k ↦
              rw (e, nft_page)
                (rw k (
                  written-HoldsPage owner contract limit offset total rounds _
                    (nft_items-IsShort nodes owner contract rounds offset s)
                    (page_length-le limit offset total)))
          | inr k ↦ rw (e, nft_page) (rw k tt)
        ]
      ]

  nft_balance-HoldsPage :
      (nodes : List NodeWithPing) (owner contract : Str) (limit offset : ℕ)
      (r : Option Answer × Calls)
      → HoldsPage limit offset
          (nft_balance lib decode send clock nodes owner contract limit offset r)
  unfolding nft_balance
  nft_balance-HoldsPage nodes owner contract limit offset (none, s) = tt
  nft_balance-HoldsPage nodes owner contract limit offset (some a, s) =
      elim (Option-cases (build_balance_of_data owner)) [
        | inl e ↦ rw (e, nft_balance) tt
        | inr (input, e) ↦
            rw (e, nft_balance) (nft_page-HoldsPage nodes owner contract limit offset _)
      ]

  nft_supports-HoldsPage :
      (nodes : List NodeWithPing) (owner contract : Str) (limit offset : ℕ) (s : Calls)
      → HoldsPage limit offset
          (nft_supports lib decode send clock nodes owner contract limit offset s)
  unfolding nft_supports
  nft_supports-HoldsPage [] owner contract limit offset s = tt
  nft_supports-HoldsPage (n ∷ ns) owner contract limit offset s =
      elim (Option-cases (build_supports_interface_data (str "0x780e9d63"))) [
        | inl e ↦ rw (e, nft_supports) tt
        | inr (input, e) ↦
            rw (e, nft_supports) (nft_balance-HoldsPage (n ∷ ns) owner contract limit offset _)
      ]

  -- A page that NFTGetAllNFTs answers has at most as many items as the request's limit, 50 if that
  -- is missing, and, unless the offset is beyond the total that the page states, at most those
  -- that are left behind the offset.
  pub nft_get_all_nfts-HoldsPage :
      (r : Registry) (q : PublicRequest) (s : Calls)
      → HoldsPage
          (limit_of lib decode send clock q)
          (offset_of lib decode send clock q)
          (nft_get_all_nfts lib decode send clock r q s)
  unfolding nft_get_all_nfts
  nft_get_all_nfts-HoldsPage r q s =
      let prefix = str "/ethereum/nft/get-all-nfts/" in
      elim (Bool-cases (not (q.method == str "GET") || not (has_prefix q.path prefix))) [
        | inl e ↦ rw (e, nft_get_all_nfts) tt
        | inr e ↦ elim (Bool-cases (trim_prefix q.path prefix == [])) [
          | inl k ↦ rw (e, nft_get_all_nfts) (rw k tt)
          | inr k ↦ elim (Bool-cases (trim_space (query_param (str "contract") q) == [])) [
            | inl m ↦ rw (e, nft_get_all_nfts) (rw k (rw m tt))
            | inr m ↦ rw (e, nft_get_all_nfts) (rw k (rw m (nft_supports-HoldsPage _ _ _ _ _ s)))
          ]
        ]
      ]
