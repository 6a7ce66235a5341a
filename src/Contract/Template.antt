-- ===== src/Contract/Template.antt =====
-- contract-template.ts and amendment-template.ts: the text that the client signs. The formats of
-- Intl, the local date and SHA-256 are the fields of `Formats`; a template is the list of its
-- lines, of which the empty ones are dropped before the others are joined.
use crm_collab.Base.{
  ℕ, zero, suc, ◌≡◌, refl, ◌+◌, ◌/◌, ◌%◌, Bool, true, false, Option, none, some, List, [], ◌∷◌,
  ◌++◌, ltb, ◌==◌, select, if◌then◌else◌,
}
use crm_collab.Base.Text.{Text, codes, trim_or_none}
use crm_collab.Contract.Model.{ContractTerms, cima, independent, natural, juridical}

-- `formatMoney` and `money` call `Intl.NumberFormat("es-CO", …)` with the currency given here.
pub record Formats : Type 0 where
  pub money : ℕ → Text → Text
  pub local_date : ℕ → Text
  pub sha256 : Text → Text
  pub id_prefix : ℕ → Text

-- The decimal digits of a number, most significant first; a number has fewer digits than units.
digits : ℕ → ℕ → Text → Text
digits zero n acc = acc
digits (suc fuel) n acc =
    let rest = digits fuel (n / 10) ((48 + n % 10) ∷ acc) in
    if ltb n 10 then (48 + n) ∷ acc else rest

unfoldable pub decimal : ℕ → Text
unfolding digits
decimal n = digits (suc n) n []

decimal_407 : decimal 407 ≡ codes "407"
unfolding decimal
decimal_407 = refl

-- `${s}` of a nullable text.
abbrev pub shown : Option Text → Text
shown none = codes "null"
shown (some s) = s

-- `s ? … : null`, before the nulls and the empty texts are filtered out.
unfoldable pub labelled : Text → Option Text → Text
labelled label none = []
labelled label (some []) = []
labelled label (some (c ∷ s)) = label ++ c ∷ s

abbrev pub is_text : Text → Bool
is_text [] = false
is_text (c ∷ s) = true

unfoldable pub join_with : Text → List Text → Text
join_with separator [] = []
join_with separator (s ∷ []) = s
join_with separator (s ∷ t ∷ rest) = s ++ (separator ++ join_with separator (t ∷ rest))

-- `.filter(Boolean).join(separator)`
unfoldable pub join_texts : Text → List Text → Text
unfolding join_with
join_texts separator parts = join_with separator (select is_text parts)

-- The pieces of a template literal.
abbrev pub glued : List Text → Text
glued [] = []
glued (s ∷ rest) = s ++ glued rest

abbrev pub newline : Text
newline = 10 ∷ []

client_identity : ContractTerms → Text
unfolding decimal
client_identity c = elim c.client_kind [
  | juridical ↦ glued (
      shown c.client_company_name
      ∷ codes ", identificada con NIT "
      ∷ shown c.client_tax_id
      ∷ codes ", representada legalmente por "
      ∷ shown c.client_representative
      ∷ codes ", identificado(a) con documento "
      ∷ shown c.client_representative_document
      ∷ [])
  | natural ↦ glued (c.client_name ∷ codes ", documento " ∷ shown c.client_document ∷ [])
]

provider_identity : ContractTerms → Text
unfolding labelled join_texts
provider_identity c = join_texts (codes ", ") (
    c.provider_name
    ∷ labelled (codes "NIT/Documento ") c.provider_tax_id
    ∷ labelled (codes "representado por ") c.provider_representative
    ∷ labelled (codes "documento ") c.provider_representative_document
    ∷ [])

billing_document : ContractTerms → Text
billing_document c = elim c.provider_kind [
  | cima ↦ codes "facturas detalladas"
  | independent ↦ codes "cuentas de cobro"
]

signing_identity : ContractTerms → Text
signing_identity c = elim c.client_kind [
  | juridical ↦ codes "Firma del representante legal: " ++ shown c.client_representative
  | natural ↦ codes "Firma del cliente: " ++ c.client_name
]

-- The terms of one contract, under a heading, if any are left after trimming.
unfoldable pub particular : Text → Option Text → Text
particular heading terms = elim (trim_or_none terms) [
  | none ↦ []
  | some s ↦ glued (newline ∷ heading ∷ newline ∷ s ∷ [])
]

contract_lines : Formats → ContractTerms → Text → List Text
unfolding client_identity provider_identity billing_document signing_identity particular decimal
contract_lines f c project_name =
    (codes "CONTRATO DE PRESTACIÓN DE SERVICIOS DE GESTIÓN DE REDES SOCIALES")
    ∷ (glued ((codes "Proyecto: ") ∷ project_name ∷ []))
    ∷ []
    ∷ (glued (
        (codes "Entre ")
        ∷ (provider_identity c)
        ∷ (codes ", en adelante EL PRESTADOR, y ")
        ∷ (client_identity c)
        ∷ (codes
            ", en adelante EL CLIENTE, se celebra el presente contrato de prestación de servicios profesionales de gestión de redes sociales.")
        ∷ []))
    ∷ []
    ∷ (codes "CLÁUSULA PRIMERA. OBJETO.")
    ∷ (glued (
        (codes
          "EL PRESTADOR se compromete a proporcionar servicios profesionales de administración de redes sociales para el proyecto ")
        ∷ project_name
        ∷ (codes ". El servicio corresponde al plan ")
        ∷ c.plan_name
        ∷ (codes " e incluye: ")
        ∷ c.service_scope
        ∷ []))
    ∷ (codes
        "PARÁGRAFO PRIMERO. EL CLIENTE proporcionará oportunamente los medios, insumos, accesos, imágenes, logotipos, autorizaciones y demás materiales necesarios para producir y publicar los entregables acordados.")
    ∷ []
    ∷ (codes "CLÁUSULA SEGUNDA. CONTRAPRESTACIÓN Y FORMA DE PAGO.")
    ∷ (glued (
        (codes "EL CLIENTE pagará a EL PRESTADOR la suma mensual de ")
        ∷ (f.money c.monthly_fee c.currency)
        ∷ (codes " por los servicios del plan ")
        ∷ c.plan_name
        ∷ (codes ". El pago se realiza por mes anticipado.")
        ∷ (if c.tax_included
            then codes " El valor mensual incluye los impuestos aplicables."
            else codes " El valor no incluye IVA.")
        ∷ []))
    ∷ (glued (
        (codes "EL PRESTADOR emitirá ")
        ∷ (billing_document c)
        ∷ (codes
            " por los servicios prestados. Las condiciones sobre anticipos, cancelaciones o devoluciones se regirán por los acuerdos comerciales y las normas aplicables.")
        ∷ []))
    ∷ []
    ∷ (codes "CLÁUSULA TERCERA. DURACIÓN.")
    ∷ (glued (
        (codes "El contrato tendrá una duración de ")
        ∷ (decimal c.term_months)
        ∷ (codes " mes")
        ∷ (if c.term_months == 1 then [] else codes "es")
        ∷ (codes
            ", contada desde la fecha de su firma electrónica. Las partes podrán revisar, renovar o modificar sus términos por escrito al finalizar el período.")
        ∷ []))
    ∷ []
    ∷ (codes "CLÁUSULA CUARTA. CONTENIDO Y COLABORACIÓN.")
    ∷ (codes
        "EL CLIENTE se compromete a proporcionar acceso oportuno y completo a la información, materiales y recursos requeridos para la ejecución de los servicios, incluyendo imágenes, logotipos y cualquier contenido necesario para publicaciones y campañas.")
    ∷ []
    ∷ (codes "CLÁUSULA QUINTA. PROPIEDAD INTELECTUAL.")
    ∷ (codes
        "Los derechos de propiedad intelectual sobre el contenido creado y desarrollado durante la ejecución del contrato pertenecerán a EL CLIENTE, salvo pacto escrito diferente o derechos preexistentes de terceros.")
    ∷ []
    ∷ (codes "CLÁUSULA SEXTA. CONFIDENCIALIDAD.")
    ∷ (codes
        "Las partes se obligan a conservar la confidencialidad de la información sensible, exclusiva o no pública revelada durante la ejecución de los servicios, salvo obligación legal o autorización escrita.")
    ∷ []
    ∷ (codes "CLÁUSULA SÉPTIMA. TERMINACIÓN.")
    ∷ (codes
        "Cualquiera de las partes podrá terminar el contrato mediante notificación escrita con al menos veinte (20) días de antelación a la siguiente facturación. EL CLIENTE deberá pagar los servicios efectivamente prestados hasta la fecha de terminación.")
    ∷ (particular (codes "Condiciones adicionales") c.additional_terms)
    ∷ []
    ∷ (glued (
        (codes "En aceptación de lo anterior, ")
        ∷ (signing_identity c)
        ∷ (codes ". El contrato se firma electrónicamente en ")
        ∷ c.signature_city
        ∷ (codes ".")
        ∷ []))
    ∷ (codes
        "Al firmar electrónicamente, EL CLIENTE declara que leyó, comprendió y acepta íntegramente este documento.")
    ∷ []

unfoldable pub build_contract_snapshot : Formats → ContractTerms → Text → Text
unfolding contract_lines join_texts
build_contract_snapshot f c project_name = join_texts newline (contract_lines f c project_name)

-- A contract's text is never empty.
pub build_contract_snapshot-nonempty :
    (f : Formats) (c : ContractTerms) (project_name : Text)
    → is_text (build_contract_snapshot f c project_name) ≡ true
unfolding build_contract_snapshot contract_lines join_texts join_with
build_contract_snapshot-nonempty f c project_name = refl
