-- ===== src/Parser/Validator/Messages.antt =====
-- The parts that the messages of the validator share (parser/src/validator.cpp).
use tsn_gen.Prelude.{Text, codes, ◌++◌}

pub unknown_key : Text → Text → Text
unknown_key key place =
    codes "unknown key '"
    ++ key
    ++ codes "' in "
    ++ place
    ++ codes " (not part of the protocol schema)"

-- A name in quotes between the beginning and the end of a message.
pub around : Text → Text → Text → Text
around first name last = first ++ codes "'" ++ name ++ codes "'" ++ last
