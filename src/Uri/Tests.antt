-- ===== src/Uri/Tests.antt =====
-- URIs, parsed.
use foot.Base.{◌≡◌, refl, arith, [], ◌∷◌, some}
use foot.Uri.{uri_parse, port_digits, decode_path, hex2nibble}
use foot.Uri.Port.{port_digits-decimal}
use foot.Uri.Print.{authority_of}
use foot.Uri.RoundTrip.{Parts, AreParts, print_uri, uri_parse-print}

-- `ab://me:x@h:80/a?b?q#f`, where the path has a question mark.
abbrev parts : Parts
parts = record {
  scheme = b'a' ∷ b'b' ∷ [];
  user = some (b'm' ∷ b'e' ∷ [], some (b'x' ∷ []));
  host = b'h' ∷ [];
  port = some (b'8' ∷ b'0' ∷ []);
  path = b'a' ∷ b'?' ∷ b'b' ∷ [];
  query = some (b'q' ∷ []);
  fragment = some (b'f' ∷ []);
}

parts-AreParts : AreParts parts
unfolding foot.Uri.streq
parts-AreParts = record {
  scheme = (refl, ((refl, (refl, tt)), tt));
  no_file = refl;
  user = (
    (refl, ((refl, (refl, tt)), ((refl, (refl, tt)), ((refl, (refl, tt)), tt)))),
    (refl, ((refl, tt), ((refl, tt), tt))),
  );
  host = ((refl, tt), ((refl, tt), ((refl, tt), tt)));
  port = (refl, (refl, (refl, tt)));
  path = (omega arith, (omega arith, (omega arith, tt)));
  tail = ((refl, ((refl, tt), tt)), refl);
}

uri_parse-print_example :
    uri_parse (print_uri parts)
    ≡ some (record {
      scheme = b'a' ∷ b'b' ∷ [];
      authority = authority_of parts.user parts.host parts.port;
      path = b'/' ∷ b'a' ∷ b'?' ∷ b'b' ∷ [];
      query = some (b'q' ∷ []);
      fragment = some (b'f' ∷ []);
    })
uri_parse-print_example = uri_parse-print parts parts-AreParts

-- Port 65616 is taken for port 80.
port_digits-decimal_example : port_digits 0 (b'6' ∷ b'5' ∷ b'6' ∷ b'1' ∷ b'6' ∷ []) ≡ some 80
port_digits-decimal_example =
    port_digits-decimal 0 (b'6' ∷ b'5' ∷ b'6' ∷ b'1' ∷ b'6' ∷ [])
      (refl, (refl, (refl, (refl, (refl, tt)))))

decoded : decode_path (b'%' ∷ b'4' ∷ b'1' ∷ b'%' ∷ b'z' ∷ []) ≡ b'A' ∷ b'%' ∷ b'z' ∷ []
unfolding decode_path hex2nibble
decoded = refl
