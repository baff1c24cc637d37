-- ===== src/Echo/Stubs.antt =====
-- The stubs of examples/echo/weaver_gen.go, by which a call of `Echo` goes to a component in the same
-- process or in another.
pub mod Remote
pub mod Failures
use weaver_kube.Base.{
  ℕ, Bool, true, false, List, [], ◌∷◌, ◌++◌, Option, none, some, is_none, not, if◌then◌else◌, Bytes,
  codes, bytes_eq, length, Error, joined,
}
use weaver_kube.Echo.{Go, returned, panics, Reply, Echoer}

-- What the stubs call in the weaver library: the encoder and the decoder, which panic at data that
-- does not fit, `codegen.CatchPanics`, which gives the error of a panic or panics again, and
-- `weaver.RemoteCallError`. A decoder returns what is left of its data.
pub record Codec : Type 0 where
  pub encode_string : Bytes → Go Bytes
  pub encode_error : Option Error → Go Bytes
  pub decode_string : Bytes → Go (Bytes × Bytes)
  pub decode_error : Bytes → Go (Option Error × Bytes)
  pub catch_panics : Bytes → Option Error
  pub remote_call_error : Error

-- The results of a stub that takes and gives encoded data.
pub record Answer : Type 0 where
  pub bytes : Bytes
  pub error : Option Error

-- `codegen.Stub`: the call of a method, by its number, with encoded arguments.
abbrev pub Transport : Type 0 → Type 0
Transport S = ℕ → Bytes → S → Go Answer × S

-- The arguments of `MethodMetrics.End`.
pub record CallRecord : Type 0 where
  pub failed : Bool
  pub request_bytes : ℕ
  pub reply_bytes : ℕ

-- The state of the callee, and what the stub of the caller records: the calls, and the ended spans
-- with their errors.
pub record Caller (S : Type 0) : Type 0 where
  pub world : S
  pub calls : List CallRecord
  pub spans : List (Option Error)

module _ {S : Type 0} where
  record_call : Bool → ℕ → ℕ → Caller S → Caller S
  record_call failed request reply w = record w {
    calls =
        w.calls ++ record { failed = failed; request_bytes = request; reply_bytes = reply } ∷ [];
  }

  -- A span is only there if the context of the call has one.
  end_span : Bool → Option Error → Caller S → Caller S
  end_span traced e w = record w { spans = if traced then w.spans ++ e ∷ [] else w.spans }

  -- The deferred functions of the local stub: the span's, then the metrics'.
  end_local : Bool → Caller S → Go Reply × S → Go Reply × Caller S
  end_local traced w (returned r, world) = (
    returned r,
    record_call (not (is_none r.error)) 0 0 (end_span traced r.error (record w { world = world })),
  )
  end_local traced w (panics text, world) =
      (panics text, record_call false 0 0 (end_span traced none (record w { world = world })))

  -- `echoer_local_stub.Echo`
  unfoldable pub local_echo : Bool → Echoer S → Bytes → Caller S → Go Reply × Caller S
  unfolding end_local record_call end_span
  local_echo traced impl a0 w = end_local traced w (impl a0 w.world)

-- How far the client's stub got: the result so far, how it ended, and the two sizes.
record Attempt : Type 0 where
  pub text : Bytes
  pub outcome : Go (Option Error)
  pub request : ℕ
  pub reply : ℕ

module _ (k : Codec) where
  after_error : Bytes → ℕ → ℕ → Go (Option Error × Bytes) → Attempt
  after_error text request reply (returned (e, rest)) = record {
    text = text;
    outcome = returned e;
    request = request;
    reply = reply;
  }
  after_error text request reply (panics t) = record {
    text = text;
    outcome = panics t;
    request = request;
    reply = reply;
  }

  after_string : ℕ → ℕ → Go (Bytes × Bytes) → Attempt
  after_string request reply (returned (text, rest)) =
      after_error text request reply (k.decode_error rest)
  after_string request reply (panics t) = record {
    text = [];
    outcome = panics t;
    request = request;
    reply = reply;
  }

  after_reply : ℕ → Bytes → Option Error → Attempt
  after_reply request bytes (some e) = record {
    text = [];
    outcome = returned (some (joined k.remote_call_error e));
    request = request;
    reply = length bytes;
  }
  after_reply request bytes none = after_string request (length bytes) (k.decode_string bytes)

  after_run : {S : Type 0} → ℕ → Go Answer × S → Attempt × S
  after_run request (returned a, world) = (after_reply request a.bytes a.error, world)
  after_run request (panics t, world) =
      (record { text = []; outcome = panics t; request = request; reply = 0 }, world)

  -- The results behind the call of the local method.
  encode_results : Go Bytes → Go Bytes → Go Answer
  encode_results (returned text) (returned error) =
      returned (record { bytes = text ++ error; error = none })
  encode_results (returned text) (panics t) = panics t
  encode_results (panics t) error = panics t

  caught : Bytes → Option Error → Go Answer
  caught t none = panics t
  caught t (some e) = returned (record { bytes = []; error = some e })

  module _ {S : Type 0} where
    -- The call of the remote method, with the arguments' encoding.
    attempt_with : Transport S → S → Go Bytes → Attempt × S
    attempt_with transport world (panics t) =
        (record { text = []; outcome = panics t; request = 0; reply = 0 }, world)
    attempt_with transport world (returned bytes) =
        after_run (length bytes) (transport 0 bytes world)

    -- The deferred functions of the client's stub: first the one that catches panics and ends the
    -- span, then the one of the metrics. A panic that is not caught leaves the span open, and the
    -- error is nil when the metrics are recorded.
    end_returned : Bool → Caller S → Attempt → Option Error → Go Reply × Caller S
    end_returned traced w a e = (
      returned (record { text = a.text; error = e }),
      record_call (not (is_none e)) a.request a.reply (end_span traced e w),
    )

    end_caught : Bool → Caller S → Attempt → Bytes → Option Error → Go Reply × Caller S
    end_caught traced w a t (some e) = end_returned traced w a (some (joined k.remote_call_error e))
    end_caught traced w a t none = (panics t, record_call false a.request a.reply w)

    end_client : Bool → Caller S → Attempt → Go (Option Error) → Go Reply × Caller S
    end_client traced w a (returned e) = end_returned traced w a e
    end_client traced w a (panics t) = end_caught traced w a t (k.catch_panics t)

    end_attempt : Bool → Caller S → Attempt × S → Go Reply × Caller S
    end_attempt traced w (a, world) = end_client traced (record w { world = world }) a a.outcome

    -- `echoer_client_stub.Echo`
    unfoldable pub client_echo : Transport S → Bool → Bytes → Caller S → Go Reply × Caller S
    unfolding attempt_with after_run after_reply after_string after_error end_attempt end_client
        end_caught end_returned record_call end_span
    client_echo transport traced a0 w =
        end_attempt traced w (attempt_with transport w.world (k.encode_string a0))

    after_impl : Go Reply × S → Go Answer × S
    after_impl (returned r, world) =
        (encode_results (k.encode_string r.text) (k.encode_error r.error), world)
    after_impl (panics t, world) = (panics t, world)

    after_arguments : Echoer S → S → Go (Bytes × Bytes) → Go Answer × S
    after_arguments impl world (returned (a0, rest)) = after_impl (impl a0 world)
    after_arguments impl world (panics t) = (panics t, world)

    catch_server : Go Answer × S → Go Answer × S
    catch_server (returned a, world) = (returned a, world)
    catch_server (panics t, world) = (caught t (k.catch_panics t), world)

    -- `echoer_server_stub.echo`
    unfoldable pub server_echo : Echoer S → Bytes → S → Go Answer × S
    unfolding after_arguments after_impl encode_results catch_server caught
    server_echo impl args world = catch_server (after_arguments impl world (k.decode_string args))

    -- `GetStubFn` of the server's stubs
    unfoldable pub get_stub_fn : Echoer S → Bytes → Option (Bytes → S → Go Answer × S)
    get_stub_fn impl method =
        if bytes_eq method (codes "Echo") then some (server_echo impl) else none

-- `echoer_reflect_stub.Echo`, given the caller by the name of a method and its arguments.
unfoldable pub reflect_echo : {S : Type 0} → (Bytes → List Bytes → S → Go Reply × S) → Echoer S
reflect_echo caller a0 world = caller (codes "Echo") (a0 ∷ []) world
