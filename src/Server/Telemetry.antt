-- ===== src/Server/Telemetry.antt =====
-- cmd/server/otel.go: the set-up of the traces, and its shutdown. A function that cleans up is known
-- by its number.
use msgscript.Base.{
  ℕ, Bool, List, [], ◌∷◌, ◌++◌, Option, none, some, ◌≡◌, refl, ap, ◌∙◌, append-nil, Bytes, text,
  equal, Result, ok, err, panic, ◌>>=◌, wrap_err, if◌then◌else◌,
}

-- What is outside: `OTEL_ENDPOINT`, the exporters, the merge of the resources, and the cleanup of a
-- provider.
pub record Tracing : Type 0 where
  pub endpoint : Bytes
  pub new_stdout_exporter : Result (Unit {0})
  pub new_grpc_client : Bytes → Result (Unit {0})
  pub new_grpc_exporter : Result (Unit {0})
  pub merged_resource : Result (Unit {0})
  pub cleanup : ℕ → Option Bytes

-- `tempoTraceExporter`
unfoldable pub tempo_trace_exporter : Tracing → Bytes → Result (Unit {0})
tempo_trace_exporter t endpoint = do _ ← t.new_grpc_client endpoint; t.new_grpc_exporter

-- The exporter for the endpoint of the environment.
unfoldable pub trace_exporter : Tracing → Result (Unit {0})
trace_exporter t =
    if equal t.endpoint []
    then elim t.new_stdout_exporter [
      | err e ↦ err (text "failed to create stdout stdout trace exporter")
      | r ↦ r
    ]
    else wrap_err (text "failed to connect to tempo GRPC endpoint: ")
        (tempo_trace_exporter t t.endpoint)

-- `newTracerProvider`: the number of the provider's `Shutdown`
unfoldable pub new_tracer_provider : Tracing → Result ℕ
new_tracer_provider t = do _ ← trace_exporter t; _ ← t.merged_resource; ok 0

-- `errors.Join`: the errors that there are.
unfoldable pub run_cleanups : Tracing → List ℕ → List Bytes
run_cleanups t [] = []
run_cleanups t (fn ∷ fns) =
    let rest = run_cleanups t fns in elim (t.cleanup fn) [ none ↦ rest | some e ↦ e ∷ rest ]

-- `shutdown`: the functions that it runs, the errors, and the functions that are left.
pub record Shutdown : Type 0 where
  pub ran : List ℕ
  pub errors : List Bytes
  pub left : List ℕ

unfoldable pub shutdown : Tracing → List ℕ → Shutdown
shutdown t fns = record { ran = fns; errors = run_cleanups t fns; left = [] }

-- `setupOTelSDK`: the functions that `shutdown` has then, and the errors.
unfoldable pub setup_otel_sdk : Tracing → Result (List ℕ × List Bytes)
setup_otel_sdk t = elim (new_tracer_provider t) [
  | ok fn ↦ ok (fn ∷ [], [])
  | err e ↦ ok ((shutdown t []).left, e ∷ (shutdown t []).errors)
  | panic ↦ panic
]

-- The functions that a number of calls of `shutdown` run, one call after the other.
abbrev pub shutdowns : Tracing → List Bool → List ℕ → List ℕ
shutdowns t [] fns = []
shutdowns t (_ ∷ calls) fns = (shutdown t fns).ran ++ shutdowns t calls (shutdown t fns).left

shutdowns-none : (t : Tracing) (calls : List Bool) → shutdowns t calls [] ≡ []
unfolding shutdown
shutdowns-none t [] = refl
shutdowns-none t (c ∷ calls) = shutdowns-none t calls

-- However often `shutdown` is called, each registered function is run once, by the first call.
pub shutdowns-once :
    (t : Tracing) (c : Bool) (calls : List Bool) (fns : List ℕ) → shutdowns t (c ∷ calls) fns ≡ fns
unfolding shutdown
shutdowns-once t c calls fns = ap (◌++◌ fns) (shutdowns-none t calls) ∙ append-nil fns
