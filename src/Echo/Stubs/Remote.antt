-- ===== src/Echo/Stubs/Remote.antt =====
-- A call of the echo component in another process, through the stubs of examples/echo/weaver_gen.go.
use weaver_kube.Base.{
  ℕ, ◌^◌, ◌<◌, Bool, [], ◌∷◌, ◌++◌, Option, none, some, is_none, not, if◌then◌else◌, Bytes, codes,
  bytes_eq, length, Error, ◌≡◌, refl, sym, ap, ◌∙◌, append-nil,
}
use weaver_kube.Echo.{Go, returned, Reply, Echoer, echo, Http, handle_root}
use weaver_kube.Echo.Stubs.{
  Codec, Answer, Transport, Caller, local_echo, client_echo, server_echo, get_stub_fn, end_returned,
  record_call, end_span,
}

-- The weaver library documents that what was encoded is decoded again, strings of less than 2^32
-- bytes; an error arrives as `carry` of it, and the nil error as nil.
pub record IsCodec (k : Codec) (carry : Option Error → Option Error) : Type 0 where
  pub encodes_string :
      (s : Bytes) → length s < 2 ^ 32 → (b : Bytes) × (k.encode_string s ≡ returned b)
  pub encodes_error : (e : Option Error) → (b : Bytes) × (k.encode_error e ≡ returned b)
  pub decode_string-encode_string :
      (s b rest : Bytes)
      → k.encode_string s ≡ returned b
      → k.decode_string (b ++ rest) ≡ returned (s, rest)
  pub decode_error-encode_error :
      (e : Option Error) (b rest : Bytes)
      → k.encode_error e ≡ returned b
      → k.decode_error (b ++ rest) ≡ returned (carry e, rest)
  pub carry_none : carry none ≡ none

module _ (k : Codec) (carry : Option Error → Option Error) (lawful : IsCodec k carry)
    {S : Type 0} where
  server_echo_lem :
      (impl : Echoer S) (a0 args text error : Bytes) (world world' : S) (r : Reply)
      → k.encode_string a0 ≡ returned args
      → impl a0 world ≡ (returned r, world')
      → k.encode_string r.text ≡ returned text
      → k.encode_error r.error ≡ returned error
      → server_echo k impl args world
        ≡ (returned (record { bytes = text ++ error; error = none }), world')
  unfolding server_echo
  server_echo_lem impl a0 args text error world world' r sent ran texted errored =
      let decoded : k.decode_string args ≡ returned (a0, []) =
        ap k.decode_string (sym (append-nil args))
        ∙ lawful.decode_string-encode_string a0 args [] sent in
      rw (decoded, ran, texted, errored) refl

  -- What the client's stub makes of a reply that holds encoded results.
  client_echo_lem :
      (transport : Transport S) (traced : Bool) (a0 args text error : Bytes) (w : Caller S)
      (world' : S) (r : Reply)
      → k.encode_string a0 ≡ returned args
      → transport 0 args w.world
        ≡ (returned (record { bytes = text ++ error; error = none }), world')
      → k.encode_string r.text ≡ returned text
      → k.encode_error r.error ≡ returned error
      → client_echo k transport traced a0 w
        ≡ end_returned k traced
            (record w { world = world' })
            (record {
              text = r.text;
              outcome = returned (carry r.error);
              request = length args;
              reply = length (text ++ error);
            })
            (carry r.error)
  unfolding client_echo
  client_echo_lem transport traced a0 args text error w world' r sent ran texted errored =
      let read : k.decode_string (text ++ error) ≡ returned (r.text, error) =
        lawful.decode_string-encode_string r.text text error texted in
      let read_error : k.decode_error error ≡ returned (carry r.error, []) =
        ap k.decode_error (sym (append-nil error))
        ∙ lawful.decode_error-encode_error r.error error [] errored in
      rw (sent, ran, read, read_error) refl

  -- If a transport delivers the call to the stub that the server has for the method `Echo`, and the
  -- component returns for an argument and a text of less than 2^32 bytes each, then a remote call
  -- returns the text and the error as it is carried over, the component acts as it does in a local
  -- call, which returns the component's results, and both calls are recorded once, as failed exactly
  -- if they return an error, with the span of the caller, if there is one, ended with this error.
  pub remote_echo :
      (impl : Echoer S) (transport : Transport S) (traced : Bool) (a0 : Bytes) (w : Caller S)
      (world' : S) (r : Reply)
      → ((f : Bytes → S → Go Answer × S)
          → get_stub_fn k impl (codes "Echo") ≡ some f
          → (args : Bytes) (world : S) → transport 0 args world ≡ f args world)
      → length a0 < 2 ^ 32
      → length r.text < 2 ^ 32
      → impl a0 w.world ≡ (returned r, world')
      → (request reply : ℕ) × (client_echo k transport traced a0 w ≡ (
        returned (record { text = r.text; error = carry r.error }),
        record {
          world = world';
          calls =
              w.calls
              ++ record {
                failed = not (is_none (carry r.error));
                request_bytes = request;
                reply_bytes = reply;
              }
                ∷ [];
          spans = if traced then w.spans ++ carry r.error ∷ [] else w.spans;
        },
      ))
        × (local_echo traced impl a0 w ≡ (
          returned r,
          record {
            world = world';
            calls =
                w.calls
                ++ record { failed = not (is_none r.error); request_bytes = 0; reply_bytes = 0 }
                  ∷ [];
            spans = if traced then w.spans ++ r.error ∷ [] else w.spans;
          },
        ))
  unfolding get_stub_fn bytes_eq local_echo end_returned record_call end_span
  remote_echo impl transport traced a0 w world' r delivers short short' ran =
      let (args, sent) = lawful.encodes_string a0 short in
      let (text, texted) = lawful.encodes_string r.text short' in
      let (error, errored) = lawful.encodes_error r.error in
      let served =
        delivers (server_echo k impl) refl args w.world
        ∙ server_echo_lem impl a0 args text error w.world world' r sent ran texted errored in
      (
        length args,
        length (text ++ error),
        client_echo_lem transport traced a0 args text error w world' r sent served texted errored,
        rw ran refl,
      )

  -- The page of the echo server, with its component behind such a transport, shows the parameter of
  -- a request if it has less than 2^32 bytes, and the component records its length once.
  pub echo_page :
      (h : Http) (put : ℕ → S → S) (transport : Transport S) (traced : Bool) (input : Bytes)
      (w : Caller S)
      → ((f : Bytes → S → Go Answer × S)
          → get_stub_fn k (echo put) (codes "Echo") ≡ some f
          → (args : Bytes) (world : S) → transport 0 args world ≡ f args world)
      → length input < 2 ^ 32
      → ((handle_root h (client_echo k transport traced) input w).0
          ≡ returned (record { status = 200; body = input }))
        × ((handle_root h (client_echo k transport traced) input w).1.world
            ≡ put (length input) w.world)
  unfolding handle_root echo
  echo_page h put transport traced input w delivers short =
      let (request, reply, remote, _) =
        remote_echo (echo put) transport traced input w (put (length input) w.world)
          (record { text = input; error = none }) delivers short short refl in
      rw (remote, lawful.carry_none) (refl, refl)
