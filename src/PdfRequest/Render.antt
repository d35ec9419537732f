-- ===== src/PdfRequest/Render.antt =====
-- `render` of src/ovpoc/pdfrequest.py: the one document that a payload is written as.
use online_voting_poc.Prelude.{
  ℕ, zero, suc, ◌+◌, ◌-◌, Bool, not, ◌&&◌, Option, none, some, List, [], ◌∷◌, ◌++◌, length, take,
  drop, map, replicate, ltb, nat_eq, is_some, if◌then◌else◌,
}
use online_voting_poc.Prelude.Int.{ℤ, pos, negsuc}
use online_voting_poc.Prelude.Options.{◌>>=◌}
use online_voting_poc.Bytes.{Bytes, Text, hex}
use online_voting_poc.Base64.{unb64, all_ascii}
use online_voting_poc.Json.{codes, decimal, text, canonical_bytes}
use online_voting_poc.Crypto.{Crypto}

pub record Payload : Type 0 where
  pub blinded_key : Text
  pub config_digest : Text
  pub election_id : Text

abbrev pub marker : Bytes
marker = codes "%OVPOC-REQUEST "

abbrev embedded_name : Bytes
embedded_name = codes "ovpoc-request.json"

abbrev info_date : Bytes
info_date = codes "D:20260101000000Z"

-- The part of `_well_formed` that remains on a dictionary of three strings.
unfoldable pub well_formed_payload : Payload → Bool
well_formed_payload p = is_some (unb64 p.blinded_key)

-- `c`, as the check has found it to be base64.
unfoldable pub decoded_key : Payload → Bytes
decoded_key p = elim (unb64 p.blinded_key) [ none ↦ [] | some c ↦ c ]

abbrev pub escape_pdf : Text → Text
escape_pdf [] = []
escape_pdf (c ∷ cs) =
    (if nat_eq c b'\\'
      then b'\\' ∷ b'\\' ∷ []
      else if nat_eq c b'('
      then b'\\' ∷ b'(' ∷ []
      else if nat_eq c b')'
      then b'\\' ∷ b')' ∷ []
      else c ∷ [])
    ++ escape_pdf cs

-- `none` where the text is not ASCII.
unfoldable pub pdf_text : Text → Option Bytes
pdf_text t = if all_ascii t then some (b'(' ∷ (escape_pdf t ++ b')' ∷ [])) else none

pub record Line : Type 0 where
  pub font : Text
  pub size : ℕ
  pub x : ℕ
  pub y : ℤ
  pub line : Text

abbrev pub lower : ℤ → ℕ → ℤ
lower (pos m) n = if ltb m n then negsuc (n - m - 1) else pos (m - n)
lower (negsuc m) n = negsuc (m + n)

abbrev pub at : Text → ℕ → ℤ → Text → Line
at font size y t = record { font = font; size = size; x = 56; y = y; line = t }

-- The lines from a height down, so far apart; and the height after them.
abbrev pub down : Text → ℕ → ℕ → ℤ → List Text → List Line
down font size step y [] = []
down font size step y (t ∷ ts) = at font size y t ∷ down font size step (lower y step) ts

abbrev pub below : ℤ → ℕ → ℕ → ℤ
below y step zero = y
below y step (suc n) = below (lower y step) step n

-- `f"{label:<20}{value}"`.
abbrev pub labelled : Text → Text → Text
labelled label value = label ++ (replicate (20 - length label) 32 ++ value)

-- The pieces of 64; there are no more of them than characters.
abbrev pub pieces : ℕ → Text → List Text
pieces zero t = []
pieces (suc n) [] = []
pieces (suc n) (c ∷ cs) = take 64 (c ∷ cs) ∷ pieces n (drop 64 (c ∷ cs))

-- `f"{y:g}"`, for a whole number below a million.
abbrev pub general : ℤ → Text
general (pos n) = decimal n
general (negsuc n) = b'-' ∷ decimal (suc n)

abbrev pub sentences : List Text
sentences =
    codes "By signing this document I request one ballot token for the election named"
    ∷ codes "above. The document does not record, and cannot record, how I will vote: the"
    ∷ codes "value below conceals the key that will carry my ballot, and the office that"
    ∷ codes "signs the token never sees that key. The fingerprint above is of that value,"
    ∷ codes "and should match the one shown by the application that produced this file."
    ∷ []

abbrev pub closing_lines : List Text
closing_lines =
    codes "The same three values are carried in an embedded file and in a marker"
    ∷ codes "comment. The office rebuilds this document from them and refuses the"
    ∷ codes "file if what it rebuilds is not what it was given."
    ∷ []

-- `f"{offset:010d}"`.
abbrev pub ten_digits : ℕ → Text
ten_digits n = let d = decimal n in replicate (10 - length d) b'0' ++ d

abbrev pub upper : ℕ → ℕ
upper c = if ltb 96 c && ltb c 123 then c - 32 else c

abbrev pub ref : ℕ → Bytes
ref n = decimal n ++ codes " 0 R"

-- One object in the file, under its number.
abbrev pub numbered : ℕ → Bytes → Bytes
numbered n obj = decimal n ++ (codes " 0 obj\n" ++ (obj ++ codes "\nendobj\n"))

-- The objects one after the other from a number on, and where each begins.
abbrev pub layout : ℕ → ℕ → List Bytes → Bytes × List ℕ
layout n offset [] = ([], [])
layout n offset (obj ∷ objs) =
    let piece = numbered n obj in
    let (rest, offsets) = layout (suc n) (offset + length piece) objs in
    (piece ++ rest, offset ∷ offsets)

abbrev pub entries : List ℕ → Bytes
entries [] = []
entries (o ∷ os) = ten_digits o ++ (codes " 00000 n \n" ++ entries os)

unfoldable pub body_of : Payload → Bytes
body_of p = canonical_bytes (
    ("blinded_key", text p.blinded_key)
    ∷ ("config_digest", text p.config_digest)
    ∷ ("election_id", text p.election_id)
    ∷ [])

-- The ten objects, of the body and of the page's content.
unfoldable pub objects_of : Bytes → Bytes → List Bytes
objects_of body content =
    (codes "<< /Type /Catalog /Pages "
      ++ (ref 2
          ++ (codes " /AF [ "
              ++ (ref 8
                  ++ (codes " ] /Names << /EmbeddedFiles << /Names [ ("
                      ++ (embedded_name ++ (codes ") " ++ (ref 8 ++ codes " ] >> >> >>"))))))))
    ∷ (codes "<< /Type /Pages /Kids [ " ++ (ref 3 ++ codes " ] /Count 1 >>"))
    ∷ (codes "<< /Type /Page /Parent "
        ++ (ref 2
            ++ (codes " /MediaBox [ 0 0 595 842 ] /Resources << /Font << /F1 "
                ++ (ref 4
                    ++ (codes " /F2 "
                        ++ (ref 5
                            ++ (codes " /F3 "
                                ++ (ref 6
                                    ++ (codes " >> >> /Contents " ++ (ref 7 ++ codes " >>"))))))))))
    ∷ codes "<< /Type /Font /Subtype /Type1 /BaseFont /Helvetica /Encoding /WinAnsiEncoding >>"
    ∷ codes "<< /Type /Font /Subtype /Type1 /BaseFont /Courier /Encoding /WinAnsiEncoding >>"
    ∷ codes "<< /Type /Font /Subtype /Type1 /BaseFont /Helvetica-Bold /Encoding /WinAnsiEncoding >>"
    ∷ (codes "<< /Length "
        ++ (decimal (length content)
            ++ (codes " >>\nstream\n" ++ (content ++ codes "\nendstream"))))
    ∷ (codes "<< /Type /Filespec /F ("
        ++ (embedded_name
            ++ (codes ") /UF ("
                ++ (embedded_name
                    ++ (codes ") /AFRelationship /Source"
                        ++ (codes
                              " /Desc (The three values this document states, as canonical JSON.) /EF << /F "
                            ++ (ref 9 ++ codes " >> >>")))))))
    ∷ (codes "<< /Type /EmbeddedFile /Subtype /application#2Fjson /Length "
        ++ (decimal (length body)
            ++ (codes " /Params << /Size "
                ++ (decimal (length body)
                    ++ (codes " >> >>\nstream\n" ++ (body ++ codes "\nendstream"))))))
    ∷ (codes "<< /Title (Token request) /Subject (Anonymous Authenticated Ballot System)"
        ++ (codes " /Producer (ovpoc) /Creator (ovpoc) /CreationDate ("
            ++ (info_date ++ (codes ") /ModDate (" ++ (info_date ++ codes ") >>")))))
    ∷ []

module _ ⦃crypto : Crypto⦄ where
  unfoldable pub fingerprint : Bytes → Text
  fingerprint blinded_key =
      let short = hex (take 8 (crypto.sha256 blinded_key)) in
      let four = λ (i : ℕ). take 4 (drop i short) in
      four 0 ++ b'-' ∷ (four 4 ++ b'-' ∷ (four 8 ++ b'-' ∷ four 12))

  -- `_lines`; the page is 842 high.
  unfoldable pub lines : Payload → List Line
  unfolding fingerprint decoded_key
  lines p =
      let y0 = pos 770 in
      let y1 = lower y0 20 in
      let y2 = lower y1 30 in
      let y3 = lower (below y2 13 3) 16 in
      let y4 = lower (below y3 12 5) 16 in
      let y5 = lower y4 16 in
      let rows = pieces (length p.blinded_key) p.blinded_key in
      let y6 = lower (below y5 10 (length rows)) 18 in
      at (codes "F3") 16 y0 (codes "TOKEN REQUEST")
      ∷ at (codes "F1") 9 y1 (codes "Anonymous Authenticated Ballot System. This is not a ballot.")
      ∷ (down (codes "F2") 9 13 y2 (
            labelled (codes "election") p.election_id
            ∷ labelled (codes "configuration") p.config_digest
            ∷ labelled (codes "fingerprint of c") (fingerprint (decoded_key p))
            ∷ [])
          ++ (down (codes "F1") 9 12 y3 sentences
              ++ at (codes "F1") 9 y4
                  (codes "c - the blinded ad-hoc public key, base64url, 64 characters to the line:")
                ∷ (down (codes "F2") 8 10 y5 rows ++ down (codes "F1") 8 10 y6 closing_lines)))

  -- The content of a sequence of lines; `none` where one of them is not ASCII.
  unfoldable pub content_of : List Line → Option Bytes
  unfolding pdf_text
  content_of [] = some []
  content_of (l ∷ ls) = do
    shown ← pdf_text l.line
    rest ← content_of ls
    some (
        codes "BT /"
        ++ (l.font
            ++ (32
                ∷ (decimal l.size
                    ++ (codes " Tf "
                        ++ (decimal l.x
                            ++ (32
                                ∷ (general l.y
                                    ++ (codes " Td "
                                        ++ (shown ++ (codes " Tj ET\n" ++ rest)))))))))))

  unfoldable pub assemble : Bytes → Bytes → Bytes
  unfolding objects_of
  assemble body content =
      let ident = map upper (take 32 (hex (crypto.sha256 body))) in
      let start =
        codes "%PDF-1.7\n"
        ++ (b'%' ∷ 0xe2 ∷ 0xe3 ∷ 0xcf ∷ 0xd3 ∷ 10 ∷ (marker ++ (body ++ 10 ∷ []))) in
      let objects = objects_of body content in
      let (laid, offsets) = layout 1 (length start) objects in
      let whole = start ++ laid in
      whole
      ++ (codes "xref\n0 "
          ++ (decimal (length objects + 1)
              ++ (codes "\n0000000000 65535 f \n"
                  ++ (entries offsets
                      ++ (codes "trailer\n<< /Size "
                          ++ (decimal (length objects + 1)
                              ++ (codes " /Root "
                                  ++ (ref 1
                                      ++ (codes " /Info "
                                          ++ (ref 10
                                              ++ (codes " /ID [ <"
                                                  ++ (ident
                                                      ++ (codes "> <"
                                                          ++ (ident
                                                            ++ (codes "> ] >>\nstartxref\n"
                                                            ++ (decimal (length whole)
                                                            ++ codes "\n%%EOF\n"))))))))))))))))

  -- `none` where the code raises ValueError.
  unfoldable pub render : Payload → Option Bytes
  unfolding well_formed_payload body_of lines content_of assemble
  render p = if not (well_formed_payload p) then none else elim (content_of (lines p)) [
    | none ↦ none
    | some content ↦ some (assemble (body_of p) content)
  ]
