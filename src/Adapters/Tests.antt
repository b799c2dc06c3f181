-- ===== src/Adapters/Tests.antt =====
-- Runs of the adapters, with JSON that quotes a text as it is.
use mezzium.Base.{
  ℕ, ◌^◌, ◌≤◌, ◌≡◌, refl, ◌⊎◌, inl, inr, zero, suc, arith, true, false, Option, none, some, [], ◌∷◌,
  ◌++◌, if◌then◌else◌, All,
}
use mezzium.Base.Int.{pos}
use mezzium.Text.{Str, str, ◌==◌, to_lower, has_prefix, contains, trim_prefix}
use mezzium.Hex.{magnitude, set_string}
use mezzium.Registry.{Registry}
use mezzium.Registry.Pick.{NodeWithPing}
use mezzium.Proxy.{Headers, Incoming, Adapted, Outgoing, Answer, Messages, forward}
use mezzium.Adapters.Abi.{token_value, build_owner_of_data, build_token_uri_data}
use mezzium.Adapters.Abi.Words.{IsWord, build_owner_of_data-IsWord}
use mezzium.Adapters.Abi.Addresses.{IsLowHex, IsAddress}
use mezzium.Adapters.Nfts.{IsPart, IsOwnerCall, adapt_evm-IsOwnerCall}
use mezzium.Adapters.Routes.{forward_balance, IsBalanceRequest}
use mezzium.Adapters.{JsonObject, adapt, adapt_evm, adapt_doge, adapt_sol, lower_tail}

build_owner_of_data-IsWord_example :
    ((s : Str) × IsWord (magnitude (token_value (str "0x0A"))) s
      × (build_owner_of_data (str "0x0A") ≡ some (str "0x6352211e" ++ s))
      × (build_token_uri_data (str "0x0A") ≡ some (str "0xc87b56dd" ++ s)))
    ⊎ ((2 ^ 256 ≤ magnitude (token_value (str "0x0A")))
        × (build_owner_of_data (str "0x0A") ≡ none)
        × (build_token_uri_data (str "0x0A") ≡ none))
build_owner_of_data-IsWord_example = build_owner_of_data-IsWord (str "0x0A")

ten :
    build_owner_of_data (str "0x0A")
    ≡ some (str "0x6352211e000000000000000000000000000000000000000000000000000000000000000a")
unfolding build_owner_of_data mezzium.Hex.bytes_of has_prefix to_lower set_string
    mezzium.Hex.encode_to_string
ten = refl

abbrev quote : Str → Str
quote s = str "\"" ++ s ++ str "\""

abbrev read_json : Str → Option JsonObject
read_json body = some (record {
  method = str "getBalance";
  params_length = some 1;
  encoded = λ committed. if committed then str "committed" else body;
})

abbrev empty_result : Adapted
empty_result = record { tail = []; method = []; body = []; headers = []; allowed_host_substr = [] }

-- The adapters, with an empty result in the place of a panic.
abbrev total : Option Adapted → Adapted
total none = empty_result
total (some a) = a

abbrev adapt_total : Str → Str → Str → Str → Str → Headers → Str → Adapted
adapt_total network protocol base_url tail method headers body =
    total (adapt quote read_json network protocol base_url tail method headers body)

adapt_total_extends :
    (network protocol base_url tail method : Str) (headers : Headers) (body : Str) (a : Adapted)
    → adapt quote read_json network protocol base_url tail method headers body ≡ some a
    → adapt_total network protocol base_url tail method headers body ≡ a
adapt_total_extends network protocol base_url tail method headers body a e = rw e refl

abbrev node : Str → NodeWithPing
node url = record {
  node = record { url = url; priority = pos 1; headers = []; tor = false };
  alive = true;
  ping = pos 3;
}

abbrev registry : Registry
registry =
    (
      str "TRX",
      record {
        protocol = str "trx";
        route = str "trx";
        all = [];
        best = node (str "https://tron.example") ∷ node (str "https://api.TronGrid.io") ∷ [];
        discovered = [];
        timeout_ms = pos 0;
        gas = none;
      },
    )
    ∷ []

abbrev incoming : Incoming
incoming = record {
  method = str "POST";
  path = str "/TRX/balance/Tabc";
  raw_query = [];
  room = 0;
  headers = [];
  body = str "{}";
}

abbrev decode : Str → Option Messages
decode body = none

abbrev send : ℕ → Outgoing → Option Answer
send i o = some (record { status = 200; headers = []; body = str "7"; room = 0 })

tail_read : lower_tail (str "balance/Tabc") ≡ str "balance/" ++ str "tabc"
unfolding lower_tail to_lower trim_prefix
tail_read = refl

network_read : to_lower (str "TRX") ≡ str "trx"
unfolding to_lower
network_read = refl

forward_balance_example :
    All
      (IsBalanceRequest quote read_json registry adapt_total decode send
        (str "TRX")
        (str "balance/Tabc")
        incoming
        (str "trongrid.io")
        (str "v1/accounts/")
        (str "tabc"))
      (forward registry adapt_total decode send (str "TRX") (str "balance/Tabc") incoming).1
forward_balance_example =
    forward_balance quote read_json registry adapt_total decode send (str "TRX")
      (str "balance/Tabc") incoming (str "trongrid.io") (str "v1/accounts/") b't' (str "abc")
      adapt_total_extends (inl (rw network_read refl)) tail_read

abbrev nft_tail : Str
nft_tail = str "/nft/0x00000000000000000000000000000000000000AB/10"

abbrev digits : Str
digits = str "00000000000000000000000000000000000000ab"

nft_read : lower_tail nft_tail ≡ str "nft/0x" ++ (digits ++ b'/' ∷ str "10")
unfolding lower_tail to_lower trim_prefix
nft_read = refl

zero_low : IsLowHex b'0'
zero_low = inl (omega arith, omega arith)

a_low : IsLowHex b'a'
a_low = inr (omega arith, omega arith)

b_low : IsLowHex b'b'
b_low = inr (omega arith, omega arith)

abbrev zeros_before : ℕ → Str → Str
zeros_before zero s = s
zeros_before (suc n) s = b'0' ∷ zeros_before n s

zeros_low : (n : ℕ) (s : Str) → All IsLowHex s → All IsLowHex (zeros_before n s)
zeros_low zero s h = h
zeros_low (suc n) s h = (zero_low, zeros_low n s h)

digits-IsAddress : IsAddress digits
digits-IsAddress = (refl, zeros_low 38 (str "ab") (a_low, (b_low, tt)))

ten-IsPart : IsPart (str "10")
ten-IsPart = ((λ e. ground (arith, e)), ((λ e. ground (arith, e)), tt))

adapt_evm-IsOwnerCall_example :
    ((s : Str) × (a : Adapted) × IsWord (magnitude (token_value (str "10"))) s
      × (adapt_evm quote nft_tail (str "GET") [] ≡ some a)
      × IsOwnerCall quote digits s a)
    ⊎ ((2 ^ 256 ≤ magnitude (token_value (str "10")))
        × (adapt_evm quote nft_tail (str "GET") [] ≡ none))
adapt_evm-IsOwnerCall_example =
    adapt_evm-IsOwnerCall quote nft_tail (str "GET") [] digits (str "10") nft_read digits-IsAddress
      ten-IsPart

committed : (adapt_sol quote read_json [] (str "POST") (str "x")).body ≡ str "committed"
unfolding adapt_sol ◌==◌ to_lower
committed = refl

counted : (adapt_doge (str "x") (str "GET") [] (str "https://doge.Tatum.io")).method ≡ str "POST"
unfolding adapt_doge contains to_lower
counted = refl
