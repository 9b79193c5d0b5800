-- ===== src/Detect/Numwords.antt =====
-- src/service/detect/numwords.rs: Russian numerals in words. A result is a `u32`; the sums and
-- products wrap around as in a release build.
pub mod Composed
use alfavibe_hack.Prelude.{
  ◌>>=◌, ℕ, ◌+◌, ◌*◌, ◌%◌, ◌^◌, List, [], ◌∷◌, Option, none, some, Text, text_Eq, utf8, leb, eqb,
  if◌then◌else◌,
}
use alfavibe_hack.Prelude.Maps.{get}

-- `build_dict`
unfoldable pub dict : List (Text × ℕ)
dict =
    (utf8 "один", 1)
    ∷ (utf8 "одна", 1)
    ∷ (utf8 "одно", 1)
    ∷ (utf8 "одного", 1)
    ∷ (utf8 "одному", 1)
    ∷ (utf8 "одним", 1)
    ∷ (utf8 "одном", 1)
    ∷ (utf8 "первого", 1)
    ∷ (utf8 "первое", 1)
    ∷ (utf8 "первый", 1)
    ∷ (utf8 "первой", 1)
    ∷ (utf8 "два", 2)
    ∷ (utf8 "две", 2)
    ∷ (utf8 "двух", 2)
    ∷ (utf8 "двум", 2)
    ∷ (utf8 "двумя", 2)
    ∷ (utf8 "второго", 2)
    ∷ (utf8 "второе", 2)
    ∷ (utf8 "второй", 2)
    ∷ (utf8 "вторых", 2)
    ∷ (utf8 "три", 3)
    ∷ (utf8 "трех", 3)
    ∷ (utf8 "трёх", 3)
    ∷ (utf8 "трем", 3)
    ∷ (utf8 "трём", 3)
    ∷ (utf8 "тремя", 3)
    ∷ (utf8 "третьего", 3)
    ∷ (utf8 "третье", 3)
    ∷ (utf8 "третьей", 3)
    ∷ (utf8 "четыре", 4)
    ∷ (utf8 "четырех", 4)
    ∷ (utf8 "четырёх", 4)
    ∷ (utf8 "четырем", 4)
    ∷ (utf8 "четырём", 4)
    ∷ (utf8 "четвертого", 4)
    ∷ (utf8 "четвертое", 4)
    ∷ (utf8 "четвертой", 4)
    ∷ (utf8 "пять", 5)
    ∷ (utf8 "пяти", 5)
    ∷ (utf8 "пятым", 5)
    ∷ (utf8 "пятого", 5)
    ∷ (utf8 "пятое", 5)
    ∷ (utf8 "пятой", 5)
    ∷ (utf8 "шесть", 6)
    ∷ (utf8 "шести", 6)
    ∷ (utf8 "шестого", 6)
    ∷ (utf8 "шестое", 6)
    ∷ (utf8 "шестой", 6)
    ∷ (utf8 "семь", 7)
    ∷ (utf8 "семи", 7)
    ∷ (utf8 "седьмого", 7)
    ∷ (utf8 "седьмое", 7)
    ∷ (utf8 "седьмой", 7)
    ∷ (utf8 "восемь", 8)
    ∷ (utf8 "восьми", 8)
    ∷ (utf8 "восьмого", 8)
    ∷ (utf8 "восьмое", 8)
    ∷ (utf8 "восьмой", 8)
    ∷ (utf8 "девять", 9)
    ∷ (utf8 "девяти", 9)
    ∷ (utf8 "девятого", 9)
    ∷ (utf8 "девятое", 9)
    ∷ (utf8 "девятой", 9)
    ∷ (utf8 "десять", 10)
    ∷ (utf8 "десяти", 10)
    ∷ (utf8 "десятого", 10)
    ∷ (utf8 "десятое", 10)
    ∷ (utf8 "одиннадцать", 11)
    ∷ (utf8 "одиннадцати", 11)
    ∷ (utf8 "одиннадцатого", 11)
    ∷ (utf8 "двенадцать", 12)
    ∷ (utf8 "двенадцати", 12)
    ∷ (utf8 "двенадцатого", 12)
    ∷ (utf8 "тринадцать", 13)
    ∷ (utf8 "тринадцати", 13)
    ∷ (utf8 "тринадцатого", 13)
    ∷ (utf8 "четырнадцать", 14)
    ∷ (utf8 "четырнадцати", 14)
    ∷ (utf8 "четырнадцатого", 14)
    ∷ (utf8 "пятнадцать", 15)
    ∷ (utf8 "пятнадцати", 15)
    ∷ (utf8 "пятнадцатого", 15)
    ∷ (utf8 "шестнадцать", 16)
    ∷ (utf8 "шестнадцати", 16)
    ∷ (utf8 "шестнадцатого", 16)
    ∷ (utf8 "семнадцать", 17)
    ∷ (utf8 "семнадцати", 17)
    ∷ (utf8 "семнадцатого", 17)
    ∷ (utf8 "восемнадцать", 18)
    ∷ (utf8 "восемнадцати", 18)
    ∷ (utf8 "восемнадцатого", 18)
    ∷ (utf8 "девятнадцать", 19)
    ∷ (utf8 "девятнадцати", 19)
    ∷ (utf8 "девятнадцатого", 19)
    ∷ (utf8 "двадцать", 20)
    ∷ (utf8 "двадцати", 20)
    ∷ (utf8 "двадцатого", 20)
    ∷ (utf8 "тридцать", 30)
    ∷ (utf8 "тридцати", 30)
    ∷ (utf8 "тридцатого", 30)
    ∷ (utf8 "сорок", 40)
    ∷ (utf8 "сорока", 40)
    ∷ (utf8 "сорокового", 40)
    ∷ (utf8 "пятьдесят", 50)
    ∷ (utf8 "пятидесяти", 50)
    ∷ (utf8 "пятидесятого", 50)
    ∷ (utf8 "шестьдесят", 60)
    ∷ (utf8 "шестидесяти", 60)
    ∷ (utf8 "шестидесятого", 60)
    ∷ (utf8 "семьдесят", 70)
    ∷ (utf8 "семидесяти", 70)
    ∷ (utf8 "семидесятого", 70)
    ∷ (utf8 "восемьдесят", 80)
    ∷ (utf8 "восьмидесяти", 80)
    ∷ (utf8 "восьмидесятого", 80)
    ∷ (utf8 "девяносто", 90)
    ∷ (utf8 "девяноста", 90)
    ∷ (utf8 "девяностого", 90)
    ∷ (utf8 "сто", 100)
    ∷ (utf8 "ста", 100)
    ∷ (utf8 "сотого", 100)
    ∷ (utf8 "двести", 200)
    ∷ (utf8 "двухсот", 200)
    ∷ (utf8 "двухсотого", 200)
    ∷ (utf8 "триста", 300)
    ∷ (utf8 "трехсот", 300)
    ∷ (utf8 "трёхсот", 300)
    ∷ (utf8 "трехсотого", 300)
    ∷ (utf8 "четыреста", 400)
    ∷ (utf8 "четырехсот", 400)
    ∷ (utf8 "четырёхсот", 400)
    ∷ (utf8 "четырехсотого", 400)
    ∷ (utf8 "пятьсот", 500)
    ∷ (utf8 "пятисот", 500)
    ∷ (utf8 "пятисотого", 500)
    ∷ (utf8 "шестьсот", 600)
    ∷ (utf8 "шестисот", 600)
    ∷ (utf8 "шестисотого", 600)
    ∷ (utf8 "семьсот", 700)
    ∷ (utf8 "семисот", 700)
    ∷ (utf8 "семисотого", 700)
    ∷ (utf8 "восемьсот", 800)
    ∷ (utf8 "восьмисот", 800)
    ∷ (utf8 "восьмисотого", 800)
    ∷ (utf8 "девятьсот", 900)
    ∷ (utf8 "девятисот", 900)
    ∷ (utf8 "девятисотого", 900)
    ∷ (utf8 "тысяча", 1000)
    ∷ (utf8 "тысячи", 1000)
    ∷ (utf8 "тысячу", 1000)
    ∷ (utf8 "тысяч", 1000)
    ∷ (utf8 "тысячного", 1000)
    ∷ (utf8 "тысячное", 1000)
    ∷ (utf8 "миллион", 1000000)
    ∷ (utf8 "миллиона", 1000000)
    ∷ (utf8 "миллионов", 1000000)
    ∷ (utf8 "миллионного", 1000000)
    ∷ []

abbrev wrap : ℕ → ℕ
wrap n = n % 2 ^ 32

-- What a number does to the total and to the part below a thousand that is being read.
unfoldable pub add_number : ℕ → ℕ × ℕ → ℕ × ℕ
add_number v (total, current) =
    if leb 1000 v
    then (wrap (total + wrap ((if eqb current 0 then 1 else current) * v)), 0)
    else if leb 100 v
    then (total, if eqb current 0 then v else wrap (current * v))
    else (total, wrap (current + v))

-- The loop over the words; `none` at the first one that is no numeral.
unfoldable pub words_from : ℕ × ℕ → List Text → Option ℕ
unfolding dict add_number
words_from (total, current) [] = some (wrap (total + current))
words_from state (w ∷ ws) = do v ← get w dict; words_from (add_number v state) ws

unfoldable pub parse_numeral_words : List Text → Option ℕ
unfolding words_from
parse_numeral_words [] = none
parse_numeral_words (w ∷ ws) = words_from (0, 0) (w ∷ ws)
