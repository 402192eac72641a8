-- ===== src/Policy/Parse.antt =====
-- crates/wiremesh-policy/src/lib.rs: a text is read and validated. The YAML reader is an argument.
use wire_mesh.Common.{ℕ, String, ◌≡◌, refl, subst, ◌≢◌, Option, none, some, List, [], ◌∷◌}
use wire_mesh.Common.Result.{Result, ok, err, ok-injective}
use wire_mesh.External.Ipnet.{Ipnet}
use wire_mesh.Policy.Dsl.{PolicyDoc, SegmentDef, CompileError, yaml_error}
use wire_mesh.Policy.Validate.{validate}
use wire_mesh.Policy.Compile.{compile, panicked}
use wire_mesh.Policy.Compile.Lowering.{compile-panicked}

abbrev pub parse_error : CompileError
parse_error = record { block = none; rule = none; msg = yaml_error }

abbrev pub if_valid : PolicyDoc → List CompileError → Result (List CompileError) PolicyDoc
if_valid doc [] = ok doc
if_valid doc (e ∷ es) = err (e ∷ es)

abbrev pub validated :
    (ip : Ipnet)
    → List (SegmentDef (Ipnet.Net ip))
    → Option PolicyDoc
    → Result (List CompileError) PolicyDoc
validated ip segments none = err (parse_error ∷ [])
validated ip segments (some doc) = if_valid doc (validate ip doc segments)

unfoldable pub parse_policy :
    (ip : Ipnet)
    → (String → Option PolicyDoc)
    → String
    → List (SegmentDef (Ipnet.Net ip))
    → Result (List CompileError) PolicyDoc
unfolding validate
parse_policy ip from_yaml yaml segments = validated ip segments (from_yaml yaml)

if_valid-ok :
    (doc : PolicyDoc) (es : List CompileError) {out : PolicyDoc}
    → if_valid doc es ≡ ok out
    → (es ≡ []) × (doc ≡ out)
if_valid-ok doc [] h = (refl, ok-injective h)
if_valid-ok doc (e ∷ es) h = cc

validated-ok :
    (ip : Ipnet) (segments : List (SegmentDef (Ipnet.Net ip))) (o : Option PolicyDoc)
    {out : PolicyDoc}
    → validated ip segments o ≡ ok out
    → validate ip out segments ≡ []
validated-ok ip segments none h = cc
validated-ok ip segments (some doc) h =
    let (none', same) = if_valid-ok doc (validate ip doc segments) h in
    subst (λ (d : PolicyDoc). validate ip d segments ≡ []) same none'

-- What `parse_policy` accepts never makes `compile` panic, with the same segments and any version.
pub compile-parse_policy :
    (ip : Ipnet) (from_yaml : String → Option PolicyDoc) (sha256 : String → List ℕ) (yaml : String)
    (segments : List (SegmentDef (Ipnet.Net ip))) (version : ℕ) {doc : PolicyDoc}
    → parse_policy ip from_yaml yaml segments ≡ ok doc
    → compile ip sha256 doc segments version ≢ err panicked
unfolding parse_policy
compile-parse_policy ip from_yaml sha256 yaml segments version {doc} h =
    compile-panicked ip sha256 doc segments version (validated-ok ip segments (from_yaml yaml) h)
