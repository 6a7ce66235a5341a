-- ===== src/Contract/AmendmentTemplate.antt =====
-- amendment-template.ts: the text of an amendment that the client signs.
use crm_collab.Base.{none, some, List, [], ◌∷◌, ◌++◌, ltb, if◌then◌else◌}
use crm_collab.Base.Text.{Text, codes}
use crm_collab.Contract.Model.{
  ContractTerms, Contract, Amendment, natural, juridical, one_time, monthly_recurring,
}
use crm_collab.Contract.Template.{Formats, decimal, shown, particular, join_texts, glued, newline}

-- `toString().padStart(2, "0")`
pad_two : Text → Text
pad_two [] = 48 ∷ 48 ∷ []
pad_two (c ∷ []) = 48 ∷ c ∷ []
pad_two (c ∷ d ∷ s) = c ∷ d ∷ s

-- The amendment's number, two digits at least.
num : Amendment → Text
unfolding pad_two decimal
num a = pad_two (decimal a.amendment_number)

short_identity : ContractTerms → Text
short_identity c = elim c.client_kind [
  | juridical ↦ glued (
      shown c.client_company_name
      ∷ codes ", NIT "
      ∷ shown c.client_tax_id
      ∷ codes ", rep. por "
      ∷ shown c.client_representative
      ∷ [])
  | natural ↦ glued (c.client_name ∷ codes ", documento " ∷ shown c.client_document ∷ [])
]

signed_date : Formats → Contract → Text
signed_date f c = elim c.signature.signed_at [
  | none ↦ codes "fecha anterior"
  | some at ↦ f.local_date at
]

reference : Formats → Contract → Text
reference f c = elim c.content_hash [ none ↦ f.id_prefix c.id | some hash ↦ hash ]

fee_description : Formats → Amendment → Text
fee_description f a =
    if ltb 0 a.terms.additional_fee
    then elim a.terms.fee_payment_type [
      | monthly_recurring ↦
          codes "un incremento mensual recurrente de "
          ++ f.money a.terms.additional_fee (codes "COP")
      | one_time ↦
          codes "un valor total adicional y único de "
          ++ f.money a.terms.additional_fee (codes "COP")
    ]
    else codes "no genera contraprestación económica adicional"

term_description : Amendment → Text
unfolding decimal
term_description a =
    if ltb 0 a.terms.term_months_extension
    then glued (
        codes "Se prorroga la vigencia del contrato en "
        ∷ decimal a.terms.term_months_extension
        ∷ codes " mes(es) adicionales."
        ∷ [])
    else codes "Se mantiene la vigencia original estipulada en el Contrato Principal."

amendment_lines : Formats → Amendment → Contract → Text → List Text
unfolding num short_identity signed_date reference fee_description term_description particular
amendment_lines f a c project_name =
    (glued
      ((codes "OTROSÍ N° ") ∷ (num a) ∷ (codes " AL CONTRATO DE PRESTACIÓN DE SERVICIOS") ∷ []))
    ∷ (glued ((codes "Proyecto: ") ∷ project_name ∷ []))
    ∷ (glued
        ((codes "Vinculado al Contrato Principal (SHA-256: ") ∷ (reference f c) ∷ (codes ")") ∷ []))
    ∷ []
    ∷ (glued (
        (codes "Entre ")
        ∷ c.terms.provider_name
        ∷ (codes ", en adelante EL PRESTADOR, y ")
        ∷ (short_identity c.terms)
        ∷ (codes ", en adelante EL CLIENTE, se conviene suscribir el presente OTROSÍ N° ")
        ∷ (num a)
        ∷ (codes " modificatorio y adicional al Contrato Principal suscrito el ")
        ∷ (signed_date f c)
        ∷ (codes ".")
        ∷ []))
    ∷ []
    ∷ (codes "CLÁUSULA PRIMERA. OBJETO DE LA ADICIÓN.")
    ∷ (glued (
        (codes "Las partes acuerdan incorporar al proyecto \"")
        ∷ project_name
        ∷ (codes "\" los siguientes entregables y servicios:")
        ∷ []))
    ∷ (glued (a.terms.title ∷ (codes ". ") ∷ a.terms.service_scope ∷ []))
    ∷ []
    ∷ (codes "CLÁUSULA SEGUNDA. CONDICIONES ECONÓMICAS.")
    ∷ (glued (
        (codes "Por concepto de los servicios adicionados en este Otrosí, EL CLIENTE pagará ")
        ∷ (fee_description f a)
        ∷ (codes ". Las condiciones de facturación y plazos siguen los términos del acuerdo base.")
        ∷ []))
    ∷ []
    ∷ (codes "CLÁUSULA TERCERA. PLAZO Y VIGENCIA.")
    ∷ (term_description a)
    ∷ []
    ∷ (codes "CLÁUSULA CUARTA. INALTERABILIDAD Y RATIFICACIÓN.")
    ∷ (codes
        "Las partes ratifican expresamente que todas las demás cláusulas, obligaciones y condiciones del Contrato Principal que no hayan sido modificadas por este Otrosí permanecen vigentes e inalteradas en su totalidad.")
    ∷ (particular (codes "Condiciones particulares") a.terms.additional_terms)
    ∷ []
    ∷ (glued (
        (codes
          "En aceptación y conformidad, las partes suscriben electrónicamente este documento en ")
        ∷ a.terms.signature_city
        ∷ (codes ".")
        ∷ []))
    ∷ (codes
        "Al firmar electrónicamente, EL CLIENTE declara haber leído, comprendido y aceptado el presente Otrosí.")
    ∷ []

unfoldable pub build_amendment_snapshot : Formats → Amendment → Contract → Text → Text
unfolding amendment_lines join_texts
build_amendment_snapshot f a c project_name =
    join_texts newline (amendment_lines f a c project_name)
