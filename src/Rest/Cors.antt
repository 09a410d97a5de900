-- ===== src/Rest/Cors.antt =====
-- internal/rest/middleware.go: withCORS.
use finance_engine.Prelude.{
  String, not, ◌&&◌, none, some, List, [], ◌∷◌, ◌++◌, ◌==◌, string_eq, ◌≡◌, refl, Bool-cases, inl,
  inr, if◌then◌else◌, arith,
}
use finance_engine.Store.{World}
use finance_engine.Table.{exists}
use finance_engine.Rest.{
  Request, Handler, echoed_origin, with_cors, cors_headers, fixed_headers, write_header,
}

echoed :
    (origins : List String) (origin : String)
    → echoed_origin origins origin
      ≡ (if not (origin == "") && exists (λ a. origin == a) origins then some origin else none)
unfolding echoed_origin exists
echoed [] origin = elim (Bool-cases (origin == "")) [ inl e ↦ rw e refl | inr e ↦ rw e refl ]
echoed (a ∷ origins) origin = ground (arith, echoed origins origin)

-- withCORS: a request from an origin on the list gets this origin back as the one allowed, with credentials; a
-- request without an origin, or from another one, gets no such header, before whatever the handler answers.
-- A preflight request is answered by 204 with no call of the handler, and every other request by the handler,
-- with its status, its cookies and its body as they are.
pub with_cors_lem :
    (origins : List String) (r : Request) (next : Handler) (w : World)
    → let out = with_cors origins r next w in
      let answered = if r.is_options then (write_header 204, w) else next w in
      (out.1 ≡ answered.1)
      × (out.0.status ≡ answered.0.status)
      × (out.0.cookies ≡ answered.0.cookies)
      × (out.0.body ≡ answered.0.body)
      × (out.0.headers
          ≡ (cors_headers (
                if not (r.origin == "") && exists (λ a. r.origin == a) origins
                then some r.origin
                else none)
              ++ fixed_headers)
            ++ answered.0.headers)
unfolding with_cors
with_cors_lem origins r next w = elim (Bool-cases r.is_options) [
  | inl asks ↦ rw (asks, echoed origins r.origin) (refl, refl, refl, refl, refl)
  | inr calls ↦ rw (calls, echoed origins r.origin) (refl, refl, refl, refl, refl)
]
