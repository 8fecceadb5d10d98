-- ===== src/Execution/Registry/Registration.antt =====
-- What a registration does to a registry that knows all that its applications require.
use linera_protocol.Prelude.{
  ◌≡◌, ◌≢◌, refl, sym, ap, subst, ◌∙◌, List, [], ◌∷◌, ok, ok_or, ok_inj, >>=-ok, >>-ok, inl, inr,
}
use linera_protocol.Base.Identifiers.{ApplicationId, BytecodeId, Bytes}
use linera_protocol.Base.Maps.{Key, find, put}
use linera_protocol.Base.Maps.Laws.{find-put_self, find-put_ne}
use linera_protocol.Execution.Messages.{UserApplicationDescription}
use linera_protocol.Execution.Registry.{
  ApplicationRegistry, describe_application, described, ensure_registered, id_of,
  register_application, register_new_application,
}
use linera_protocol.Execution.Registry.Stack.{In, In-cons}
use linera_protocol.Execution.Errors.{error, unknown_application_id, unknown_bytecode_id}
use linera_protocol.Execution.Registry.Complete.{not-In_nil}
use linera_protocol.Execution.Registry.Closed.{IsClosed, Known, AllKnown}

module _ (applications : Key ApplicationId) where
  abbrev registered :
      ApplicationRegistry → ApplicationId → UserApplicationDescription → ApplicationRegistry
  registered registry id app = record registry {
    known_applications = put applications id app registry.known_applications;
  }

  described-nil :
      (registry : ApplicationRegistry) (id : ApplicationId)
      → described applications [] registry id
        ≡ ok_or
            (find applications id registry.known_applications)
            (error (unknown_application_id id))
  unfolding described describe_application find
  described-nil registry id = refl

  described-registered :
      (registry : ApplicationRegistry) (id : ApplicationId) (app : UserApplicationDescription)
      → described applications [] (registered registry id app) id ≡ ok app
  described-registered registry id app =
      rw
        (
          described-nil (registered registry id app) id,
          find-put_self applications id app registry.known_applications,
        )
        refl

  described_other :
      (registry : ApplicationRegistry) (id other : ApplicationId) (app : UserApplicationDescription)
      → id ≢ other
      → described applications [] (registered registry id app) other
        ≡ described applications [] registry other
  described_other registry id other app n =
      rw
        (
          described-nil (registered registry id app) other,
          described-nil registry other,
          find-put_ne applications id other app registry.known_applications n,
        )
        refl

  registered-Known :
      (registry : ApplicationRegistry) (id other : ApplicationId) (app : UserApplicationDescription)
      → Known applications [] registry other
      → Known applications [] (registered registry id app) other
  registered-Known registry id other app (app', d) = elim (applications.same id other) [
    | yes p ↦
        subst (Known applications [] (registered registry id app)) p
          (app, described-registered registry id app)
    | no n ↦ (app', described_other registry id other app n ∙ d)
  ]

  registered-IsClosed :
      (registry : ApplicationRegistry) (id : ApplicationId) (app : UserApplicationDescription)
      → IsClosed applications [] registry
      → AllKnown applications [] registry app.required_application_ids
      → IsClosed applications [] (registered registry id app)
  unfolding IsClosed
  registered-IsClosed registry id app closed k other app' c d m =
      registered-Known registry id c app (elim (applications.same id other) [
        | yes p ↦
            let e : app ≡ app' = ok_inj (
              sym (described-registered registry id app)
              ∙ ap (described applications [] (registered registry id app)) p
              ∙ d) in
            k c (subst (λ x. In applications c x.required_application_ids) (sym e) m)
        | no n ↦ closed other app' c (sym (described_other registry id other app n) ∙ d) m
      ])

  ensure_registered-AllKnown :
      (registry : ApplicationRegistry) (ids : List ApplicationId)
      → ensure_registered applications registry ids ≡ ok tt
      → AllKnown applications [] registry ids
  unfolding ensure_registered describe_application
  ensure_registered-AllKnown registry [] h x m = not-In_nil applications x m
  ensure_registered-AllKnown registry (id ∷ ids) h x m =
      let (app, d, rest) =
        >>=-ok (describe_application applications registry id)
          (λ _. ensure_registered applications registry ids) h in
      elim (In-cons applications x id ids m) [
        | inl p ↦ subst (Known applications [] registry) p (app, described-nil registry id ∙ d)
        | inr i ↦ ensure_registered-AllKnown registry ids rest x i
      ]

  closed_registered :
      (registry : ApplicationRegistry) (id : ApplicationId) (app : UserApplicationDescription)
      → IsClosed applications [] registry
      → ensure_registered applications registry app.required_application_ids ≡ ok tt
      → IsClosed applications [] (registered registry id app)
        × Known applications [] (registered registry id app) id
  closed_registered registry id app closed e = (
    registered-IsClosed registry id app closed
        (ensure_registered-AllKnown registry app.required_application_ids e),
    (app, described-registered registry id app),
  )

  -- In a registry that is closed (each application that a known one requires is known too), a
  -- registration that succeeds makes the application known, and leaves the registry closed.
  pub register_application-IsClosed :
      (application : UserApplicationDescription) (registry registry' : ApplicationRegistry)
      (id : ApplicationId)
      → IsClosed applications [] registry
      → register_application applications application registry ≡ ok (registry', id)
      → IsClosed applications [] registry' × Known applications [] registry' id
  unfolding register_application
  register_application-IsClosed application registry registry' id closed h =
      let required = application.required_application_ids in
      let (e, p) = >>-ok (ensure_registered applications registry required) _ h in
      subst (λ r. IsClosed applications [] r.0 × Known applications [] r.0 r.1) (ok_inj p)
        (closed_registered registry (id_of application) application closed e)

  -- So does the registration of a new application.
  pub register_new_application-IsClosed :
      (bytecodes : Key BytecodeId) (id : ApplicationId) (parameters : Bytes)
      (required : List ApplicationId) (registry registry' : ApplicationRegistry)
      → IsClosed applications [] registry
      → register_new_application bytecodes applications id parameters required registry
        ≡ ok registry'
      → IsClosed applications [] registry' × Known applications [] registry' id
  unfolding register_new_application
  register_new_application-IsClosed bytecodes id parameters required registry registry' closed h =
      let (e, p) = >>-ok (ensure_registered applications registry required) _ h in
      let (location, l, q) =
        >>=-ok
          (ok_or (find bytecodes id.bytecode_id registry.published_bytecodes)
            (error (unknown_bytecode_id id.bytecode_id)))
          _ p in
      subst (λ r. IsClosed applications [] r × Known applications [] r id) (ok_inj q)
        (closed_registered registry id _ closed e)
