-- ===== src/Token/Table.antt =====
-- The spelling and the precedence of each token, in the order of the enumeration: the list
-- `TOKEN_LIST` of liblangutil/Token.h. A token without a spelling has a null pointer there.
use jules_solidity_pppascal.Common.{ℕ, List, [], ◌∷◌, Option, none, some, ◌++◌}
use jules_solidity_pppascal.Common.Text.{codes}

pub record TokenInfo : Type 0 where
  pub spelling : Option (List ℕ)
  pub precedence_of : ℕ

unfoldable pub tokens_first : List TokenInfo
tokens_first =
    record { spelling = some (codes "EOS"); precedence_of = 0 }
    ∷ record { spelling = some (codes "("); precedence_of = 0 }
    ∷ record { spelling = some (codes ")"); precedence_of = 0 }
    ∷ record { spelling = some (codes "["); precedence_of = 0 }
    ∷ record { spelling = some (codes "]"); precedence_of = 0 }
    ∷ record { spelling = some (codes "{"); precedence_of = 0 }
    ∷ record { spelling = some (codes "}"); precedence_of = 0 }
    ∷ record { spelling = some (codes ":"); precedence_of = 0 }
    ∷ record { spelling = some (codes ";"); precedence_of = 0 }
    ∷ record { spelling = some (codes "."); precedence_of = 0 }
    ∷ record { spelling = some (codes "?"); precedence_of = 3 }
    ∷ record { spelling = some (codes "=>"); precedence_of = 0 }
    ∷ record { spelling = some (codes "->"); precedence_of = 0 }
    ∷ record { spelling = some (codes "="); precedence_of = 2 }
    ∷ record { spelling = some (codes "|="); precedence_of = 2 }
    ∷ record { spelling = some (codes "^="); precedence_of = 2 }
    ∷ record { spelling = some (codes "&="); precedence_of = 2 }
    ∷ record { spelling = some (codes "<<="); precedence_of = 2 }
    ∷ record { spelling = some (codes ">>="); precedence_of = 2 }
    ∷ record { spelling = some (codes ">>>="); precedence_of = 2 }
    ∷ record { spelling = some (codes "+="); precedence_of = 2 }
    ∷ record { spelling = some (codes "-="); precedence_of = 2 }
    ∷ record { spelling = some (codes "*="); precedence_of = 2 }
    ∷ record { spelling = some (codes "/="); precedence_of = 2 }
    ∷ record { spelling = some (codes "%="); precedence_of = 2 }
    ∷ record { spelling = some (codes ","); precedence_of = 1 }
    ∷ record { spelling = some (codes "||"); precedence_of = 4 }
    ∷ record { spelling = some (codes "&&"); precedence_of = 5 }
    ∷ record { spelling = some (codes "|"); precedence_of = 8 }
    ∷ record { spelling = some (codes "^"); precedence_of = 9 }
    ∷ record { spelling = some (codes "&"); precedence_of = 10 }
    ∷ record { spelling = some (codes "<<"); precedence_of = 11 }
    ∷ record { spelling = some (codes ">>"); precedence_of = 11 }
    ∷ record { spelling = some (codes ">>>"); precedence_of = 11 }
    ∷ record { spelling = some (codes "+"); precedence_of = 12 }
    ∷ record { spelling = some (codes "-"); precedence_of = 12 }
    ∷ record { spelling = some (codes "*"); precedence_of = 13 }
    ∷ record { spelling = some (codes "/"); precedence_of = 13 }
    ∷ record { spelling = some (codes "%"); precedence_of = 13 }
    ∷ record { spelling = some (codes "**"); precedence_of = 14 }
    ∷ record { spelling = some (codes "=="); precedence_of = 6 }
    ∷ record { spelling = some (codes "!="); precedence_of = 6 }
    ∷ record { spelling = some (codes "<"); precedence_of = 7 }
    ∷ record { spelling = some (codes ">"); precedence_of = 7 }
    ∷ record { spelling = some (codes "<="); precedence_of = 7 }
    ∷ record { spelling = some (codes ">="); precedence_of = 7 }
    ∷ record { spelling = some (codes "!"); precedence_of = 0 }
    ∷ record { spelling = some (codes "~"); precedence_of = 0 }
    ∷ record { spelling = some (codes "++"); precedence_of = 0 }
    ∷ record { spelling = some (codes "--"); precedence_of = 0 }
    ∷ record { spelling = some (codes "delete"); precedence_of = 0 }
    ∷ record { spelling = some (codes ":="); precedence_of = 2 }
    ∷ record { spelling = some (codes "abstract"); precedence_of = 0 }
    ∷ record { spelling = some (codes "anonymous"); precedence_of = 0 }
    ∷ record { spelling = some (codes "as"); precedence_of = 0 }
    ∷ record { spelling = some (codes "assembly"); precedence_of = 0 }
    ∷ record { spelling = some (codes "break"); precedence_of = 0 }
    ∷ record { spelling = some (codes "catch"); precedence_of = 0 }
    ∷ []

unfoldable pub tokens_second : List TokenInfo
tokens_second =
    record { spelling = some (codes "constant"); precedence_of = 0 }
    ∷ record { spelling = some (codes "constructor"); precedence_of = 0 }
    ∷ record { spelling = some (codes "continue"); precedence_of = 0 }
    ∷ record { spelling = some (codes "contract"); precedence_of = 0 }
    ∷ record { spelling = some (codes "do"); precedence_of = 0 }
    ∷ record { spelling = some (codes "else"); precedence_of = 0 }
    ∷ record { spelling = some (codes "enum"); precedence_of = 0 }
    ∷ record { spelling = some (codes "emit"); precedence_of = 0 }
    ∷ record { spelling = some (codes "send"); precedence_of = 0 }
    ∷ record { spelling = some (codes "event"); precedence_of = 0 }
    ∷ record { spelling = some (codes "external"); precedence_of = 0 }
    ∷ record { spelling = some (codes "fallback"); precedence_of = 0 }
    ∷ record { spelling = some (codes "for"); precedence_of = 0 }
    ∷ record { spelling = some (codes "function"); precedence_of = 0 }
    ∷ record { spelling = some (codes "hex"); precedence_of = 0 }
    ∷ record { spelling = some (codes "if"); precedence_of = 0 }
    ∷ record { spelling = some (codes "indexed"); precedence_of = 0 }
    ∷ record { spelling = some (codes "interface"); precedence_of = 0 }
    ∷ record { spelling = some (codes "internal"); precedence_of = 0 }
    ∷ record { spelling = some (codes "immutable"); precedence_of = 0 }
    ∷ record { spelling = some (codes "import"); precedence_of = 0 }
    ∷ record { spelling = some (codes "is"); precedence_of = 0 }
    ∷ record { spelling = some (codes "library"); precedence_of = 0 }
    ∷ record { spelling = some (codes "mapping"); precedence_of = 0 }
    ∷ record { spelling = some (codes "memory"); precedence_of = 0 }
    ∷ record { spelling = some (codes "modifier"); precedence_of = 0 }
    ∷ record { spelling = some (codes "new"); precedence_of = 0 }
    ∷ record { spelling = some (codes "override"); precedence_of = 0 }
    ∷ record { spelling = some (codes "payable"); precedence_of = 0 }
    ∷ record { spelling = some (codes "public"); precedence_of = 0 }
    ∷ record { spelling = some (codes "pragma"); precedence_of = 0 }
    ∷ record { spelling = some (codes "private"); precedence_of = 0 }
    ∷ record { spelling = some (codes "pure"); precedence_of = 0 }
    ∷ record { spelling = some (codes "receive"); precedence_of = 0 }
    ∷ record { spelling = some (codes "return"); precedence_of = 0 }
    ∷ record { spelling = some (codes "returns"); precedence_of = 0 }
    ∷ record { spelling = some (codes "storage"); precedence_of = 0 }
    ∷ record { spelling = some (codes "calldata"); precedence_of = 0 }
    ∷ record { spelling = some (codes "struct"); precedence_of = 0 }
    ∷ record { spelling = some (codes "throw"); precedence_of = 0 }
    ∷ record { spelling = some (codes "try"); precedence_of = 0 }
    ∷ record { spelling = some (codes "type"); precedence_of = 0 }
    ∷ record { spelling = some (codes "unchecked"); precedence_of = 0 }
    ∷ record { spelling = some (codes "unicode"); precedence_of = 0 }
    ∷ record { spelling = some (codes "using"); precedence_of = 0 }
    ∷ record { spelling = some (codes "view"); precedence_of = 0 }
    ∷ record { spelling = some (codes "virtual"); precedence_of = 0 }
    ∷ record { spelling = some (codes "while"); precedence_of = 0 }
    ∷ record { spelling = some (codes "wei"); precedence_of = 0 }
    ∷ record { spelling = some (codes "gwei"); precedence_of = 0 }
    ∷ record { spelling = some (codes "ether"); precedence_of = 0 }
    ∷ record { spelling = some (codes "seconds"); precedence_of = 0 }
    ∷ record { spelling = some (codes "minutes"); precedence_of = 0 }
    ∷ record { spelling = some (codes "hours"); precedence_of = 0 }
    ∷ record { spelling = some (codes "days"); precedence_of = 0 }
    ∷ record { spelling = some (codes "weeks"); precedence_of = 0 }
    ∷ record { spelling = some (codes "years"); precedence_of = 0 }
    ∷ record { spelling = some (codes "attov"); precedence_of = 0 }
    ∷ record { spelling = some (codes "vite"); precedence_of = 0 }
    ∷ []

unfoldable pub tokens_third : List TokenInfo
tokens_third =
    record { spelling = some (codes "int"); precedence_of = 0 }
    ∷ record { spelling = some (codes "uint"); precedence_of = 0 }
    ∷ record { spelling = some (codes "bytes"); precedence_of = 0 }
    ∷ record { spelling = some (codes "string"); precedence_of = 0 }
    ∷ record { spelling = some (codes "address"); precedence_of = 0 }
    ∷ record { spelling = some (codes "bool"); precedence_of = 0 }
    ∷ record { spelling = some (codes "fixed"); precedence_of = 0 }
    ∷ record { spelling = some (codes "ufixed"); precedence_of = 0 }
    ∷ record { spelling = some (codes "intM"); precedence_of = 0 }
    ∷ record { spelling = some (codes "uintM"); precedence_of = 0 }
    ∷ record { spelling = some (codes "bytesM"); precedence_of = 0 }
    ∷ record { spelling = some (codes "fixedMxN"); precedence_of = 0 }
    ∷ record { spelling = some (codes "ufixedMxN"); precedence_of = 0 }
    ∷ record { spelling = some (codes "vitetoken"); precedence_of = 0 }
    ∷ record { spelling = none; precedence_of = 0 }
    ∷ record { spelling = some (codes "true"); precedence_of = 0 }
    ∷ record { spelling = some (codes "false"); precedence_of = 0 }
    ∷ record { spelling = none; precedence_of = 0 }
    ∷ record { spelling = none; precedence_of = 0 }
    ∷ record { spelling = none; precedence_of = 0 }
    ∷ record { spelling = none; precedence_of = 0 }
    ∷ record { spelling = none; precedence_of = 0 }
    ∷ record { spelling = none; precedence_of = 0 }
    ∷ record { spelling = some (codes "after"); precedence_of = 0 }
    ∷ record { spelling = some (codes "alias"); precedence_of = 0 }
    ∷ record { spelling = some (codes "apply"); precedence_of = 0 }
    ∷ record { spelling = some (codes "auto"); precedence_of = 0 }
    ∷ record { spelling = some (codes "byte"); precedence_of = 0 }
    ∷ record { spelling = some (codes "case"); precedence_of = 0 }
    ∷ record { spelling = some (codes "copyof"); precedence_of = 0 }
    ∷ record { spelling = some (codes "default"); precedence_of = 0 }
    ∷ record { spelling = some (codes "define"); precedence_of = 0 }
    ∷ record { spelling = some (codes "final"); precedence_of = 0 }
    ∷ record { spelling = some (codes "implements"); precedence_of = 0 }
    ∷ record { spelling = some (codes "in"); precedence_of = 0 }
    ∷ record { spelling = some (codes "inline"); precedence_of = 0 }
    ∷ record { spelling = some (codes "let"); precedence_of = 0 }
    ∷ record { spelling = some (codes "macro"); precedence_of = 0 }
    ∷ record { spelling = some (codes "match"); precedence_of = 0 }
    ∷ record { spelling = some (codes "mutable"); precedence_of = 0 }
    ∷ record { spelling = some (codes "null"); precedence_of = 0 }
    ∷ record { spelling = some (codes "of"); precedence_of = 0 }
    ∷ record { spelling = some (codes "partial"); precedence_of = 0 }
    ∷ record { spelling = some (codes "promise"); precedence_of = 0 }
    ∷ record { spelling = some (codes "reference"); precedence_of = 0 }
    ∷ record { spelling = some (codes "relocatable"); precedence_of = 0 }
    ∷ record { spelling = some (codes "sealed"); precedence_of = 0 }
    ∷ record { spelling = some (codes "sizeof"); precedence_of = 0 }
    ∷ record { spelling = some (codes "static"); precedence_of = 0 }
    ∷ record { spelling = some (codes "supports"); precedence_of = 0 }
    ∷ record { spelling = some (codes "switch"); precedence_of = 0 }
    ∷ record { spelling = some (codes "typedef"); precedence_of = 0 }
    ∷ record { spelling = some (codes "typeof"); precedence_of = 0 }
    ∷ record { spelling = some (codes "var"); precedence_of = 0 }
    ∷ record { spelling = some (codes "async"); precedence_of = 0 }
    ∷ record { spelling = some (codes "await"); precedence_of = 0 }
    ∷ record { spelling = some (codes "leave"); precedence_of = 0 }
    ∷ record { spelling = some (codes "ILLEGAL"); precedence_of = 0 }
    ∷ record { spelling = none; precedence_of = 0 }
    ∷ []

unfoldable pub token_list : List TokenInfo
unfolding tokens_first tokens_second tokens_third
token_list = tokens_first ++ (tokens_second ++ tokens_third)
