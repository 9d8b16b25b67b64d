-- ===== src/ChartInspector/Keeping.antt =====
-- Properties of the world through `Resources` of internal/chartinspector/chartinspector.go.
use composition_dynamic_cont.Common.{ℕ, String, ◌<>◌, not, List, [], ◌==◌, nat_eq, if◌then◌else◌}
use composition_dynamic_cont.Common.Dict.{Dict}
use composition_dynamic_cont.Common.Effect.{failed, Outcome, Act, fail, lift, wrap, ◌>>=◌}
use composition_dynamic_cont.Common.Keeps.{Keeps, Keeps-bind, Keeps-wrap, Keeps-lift, Keeps-if}
use composition_dynamic_cont.ChartInspector.{
  Resource, Parameters, Http, validate, build_query, collect, decode_body, unexpected,
  list_resources,
}

module _ {W : Type 0} (P : W → Type 0) (h : Http W)
    (kept : (u : String) (q : Dict String) → Keeps P (h.get u q)) where
  wrap-lift-Keeps : {A : Type 0} (s : String) (o : Outcome A) → Keeps P (wrap s (lift o))
  wrap-lift-Keeps s o = Keeps-wrap P s (lift o) (Keeps-lift P o)

  decode_body-Keeps : (body : h.Body) → Keeps P (decode_body h body)
  unfolding decode_body
  decode_body-Keeps body =
      let many : Act W (List Resource) =
        wrap "decoding chartinspector element" (lift (collect [] (h.elements body))) in
      let one : Act W (List Resource) =
        wrap "decoding chartinspector response" (lift (h.rest body)) in
      Keeps-bind P (wrap "decoding chartinspector response" (lift (h.token body)))
        (λ array. if array then many else one)
        (wrap-lift-Keeps "decoding chartinspector response" (h.token body))
        (λ array.
          Keeps-if P array many one
            (wrap-lift-Keeps "decoding chartinspector element" (collect [] (h.elements body)))
            (wrap-lift-Keeps "decoding chartinspector response" (h.rest body)))

  unexpected-Keeps : (status : ℕ) (body : h.Body) → Keeps P (unexpected h status body)
  unfolding unexpected
  unexpected-Keeps status body =
      Keeps-bind P (wrap "reading response body" (lift (h.read_all body)))
        (λ text. fail (
          failed
            ("unexpected status code: " <> (h.decimal status <> (" - response body: " <> text)))))
        (wrap-lift-Keeps "reading response body" (h.read_all body)) (λ text w p. p)

  answer : ℕ × h.Body → Act W (List Resource)
  answer (status, body) =
      if not (status == 200) then unexpected h status body else decode_body h body

  answer-Keeps : (got : ℕ × h.Body) → Keeps P (answer got)
  unfolding answer
  answer-Keeps (status, body) =
      Keeps-if P (not (status == 200)) (unexpected h status body) (decode_body h body)
        (unexpected-Keeps status body) (decode_body-Keeps body)

  -- A property that the request keeps is kept by `Resources`, however it ends.
  pub list_resources-Keeps :
      (server : String) (p : Parameters) → Keeps P (list_resources h server p)
  unfolding list_resources answer
  list_resources-Keeps server p =
      let valid = wrap "validating parameters" (lift (validate p)) in
      let join = wrap "joining server url" (lift (h.join_path server "/resources")) in
      let send = λ (u : String) (query : Dict String).
        wrap "getting chartinspector" (h.get u (build_query p query)) in
      let ask = λ (u : String) (query : Dict String). send u query >>= answer in
      let request = λ (u : String). wrap "creating request" (lift (h.new_request u)) in
      let visit = λ (u : String). request u >>= ask u in
      Keeps-bind P valid (λ _. join >>= visit)
        (wrap-lift-Keeps "validating parameters" (validate p))
        (λ _.
          Keeps-bind P join visit
            (wrap-lift-Keeps "joining server url" (h.join_path server "/resources"))
            (λ u.
              Keeps-bind P (request u) (ask u)
                (wrap-lift-Keeps "creating request" (h.new_request u))
                (λ query.
                  Keeps-bind P (send u query) answer
                    (Keeps-wrap P "getting chartinspector" (h.get u (build_query p query))
                      (kept u (build_query p query)))
                    answer-Keeps)))
