-- ===== src/Tests/Echoing.antt =====
-- Calls of the echo component with a small codec.
use Prim.Native.Nat.{zero, suc}
use weaver_kube.Base.{
  ℕ, ◌+◌, true, false, [], ◌∷◌, ◌++◌, Option, none, some, Bytes, bytes_eq, codes, length, take,
  drop, drop-append, Error, external, joined, ◌≡◌, refl, ap, arith,
}
use weaver_kube.Echo.{Go, returned, panics, Echoer, echo, Http, handle_root}
use weaver_kube.Echo.Stubs.{
  Codec, Answer, Transport, Caller, local_echo, client_echo, server_echo, get_stub_fn,
}
use weaver_kube.Echo.Stubs.Remote.{IsCodec, remote_echo, echo_page}
use weaver_kube.Echo.Stubs.Failures.{IsEnd, client_echo-IsEnd, remote_panic}

encode_error : Option Error → Go Bytes
encode_error none = returned (0 ∷ [])
encode_error (some e) = returned (1 ∷ [])

decode_string : Bytes → Go (Bytes × Bytes)
decode_string [] = panics (codes "no data")
decode_string (n ∷ rest) = returned (take n rest, drop n rest)

decode_error : Bytes → Go (Option Error × Bytes)
decode_error [] = panics (codes "no data")
decode_error (zero ∷ rest) = returned (none, rest)
decode_error (suc n ∷ rest) = returned (some (external (codes "remote")), rest)

-- A length stands before a string; an error loses its text.
abbrev codec : Codec
codec = record {
  encode_string = λ s. returned (length s ∷ s);
  encode_error = encode_error;
  decode_string = decode_string;
  decode_error = decode_error;
  catch_panics = λ text. some (external text);
  remote_call_error = external (codes "remote call");
}

abbrev carry : Option Error → Option Error
carry none = none
carry (some e) = some (external (codes "remote"))

take-append : (xs ys : Bytes) → take (length xs) (xs ++ ys) ≡ xs
take-append [] ys = refl
take-append (x ∷ xs) ys = ap (λ l. x ∷ l) (take-append xs ys)

returned-injective : {A : Type 0} {a b : A} → returned a ≡ returned b → a ≡ b
returned-injective h = cc

read_string :
    (s b rest : Bytes)
    → returned (length s ∷ s) ≡ returned b
    → decode_string (b ++ rest) ≡ returned (s, rest)
unfolding decode_string
read_string s b rest h = rw (← returned-injective h) (rw (take-append, drop-append) refl)

read_error :
    (e : Option Error) (b rest : Bytes)
    → encode_error e ≡ returned b
    → decode_error (b ++ rest) ≡ returned (carry e, rest)
unfolding encode_error decode_error
read_error none b rest h = rw (← returned-injective h) refl
read_error (some e) b rest h = rw (← returned-injective h) refl

encoded_error : (e : Option Error) → (b : Bytes) × (encode_error e ≡ returned b)
unfolding encode_error
encoded_error none = (_, refl)
encoded_error (some e) = (_, refl)

codec-IsCodec : IsCodec codec carry
codec-IsCodec = record {
  encodes_string = λ s short. (_, refl);
  encodes_error = encoded_error;
  decode_string-encode_string = read_string;
  decode_error-encode_error = read_error;
  carry_none = refl;
}

-- The histogram is a sum.
abbrev put : ℕ → ℕ → ℕ
put n total = total + n

-- A server in the same process.
abbrev transport : Echoer ℕ → Transport ℕ
transport impl method args world = server_echo codec impl args world

delivers :
    (impl : Echoer ℕ) (f : Bytes → ℕ → Go Answer × ℕ)
    → get_stub_fn codec impl (codes "Echo") ≡ some f
    → (args : Bytes) (world : ℕ) → transport impl 0 args world ≡ f args world
unfolding get_stub_fn bytes_eq
delivers impl f found args world =
    let same : server_echo codec impl ≡ f = cc in ap (λ g. g args world) same

abbrev caller : Caller ℕ
caller = record { world = 0; calls = []; spans = [] }

remote_echo_example :
    (request reply : ℕ) × (client_echo codec (transport (echo put)) true (codes "hi") caller ≡ (
      returned (record { text = codes "hi"; error = none }),
      record {
        world = 2;
        calls = record { failed = false; request_bytes = request; reply_bytes = reply } ∷ [];
        spans = none ∷ [];
      },
    ))
    × (local_echo true (echo put) (codes "hi") caller ≡ (
      returned (record { text = codes "hi"; error = none }),
      record {
        world = 2;
        calls = record { failed = false; request_bytes = 0; reply_bytes = 0 } ∷ [];
        spans = none ∷ [];
      },
    ))
unfolding echo
remote_echo_example =
    remote_echo codec carry codec-IsCodec (echo put) (transport (echo put)) true (codes "hi") caller
      2 (record { text = codes "hi"; error = none }) (delivers (echo put)) (omega arith)
      (omega arith) refl

abbrev http : Http
http = record {
  error_text = λ e. codes "error";
  error_page = λ text status. record { status = status; body = text };
}

echo_page_example :
    ((handle_root http (client_echo codec (transport (echo put)) false) (codes "hi") caller).0
      ≡ returned (record { status = 200; body = codes "hi" }))
    × ((handle_root http
          (client_echo codec (transport (echo put)) false)
          (codes "hi")
          caller).1.world
        ≡ 2)
echo_page_example =
    echo_page codec carry codec-IsCodec http put (transport (echo put)) false (codes "hi") caller
      (delivers (echo put)) (omega arith)

-- A component that panics.
abbrev failing : Echoer ℕ
failing s world = (panics (codes "boom"), world)

client_echo-IsEnd_example :
    IsEnd codec true caller
      (client_echo codec (transport failing) true (codes "hi") caller).0
      (client_echo codec (transport failing) true (codes "hi") caller).1
client_echo-IsEnd_example = client_echo-IsEnd codec (transport failing) true (codes "hi") caller

remote_panic_example :
    ((client_echo codec (transport failing) true (codes "hi") caller).0
      ≡ returned (record {
        text = [];
        error = some (joined (external (codes "remote call")) (external (codes "boom")));
      }))
    × ((local_echo true failing (codes "hi") caller).0 ≡ panics (codes "boom"))
    × ((client_echo codec (transport failing) true (codes "hi") caller).1.world ≡ 0)
    × ((local_echo true failing (codes "hi") caller).1.world ≡ 0)
remote_panic_example =
    remote_panic codec carry codec-IsCodec failing (transport failing) true (codes "hi")
      (codes "boom") (external (codes "boom")) caller 0 (delivers failing) (omega arith) refl refl
