-- ===== src/Quran/Catalog.antt =====
-- src/quran/surahs.ts: the rows of the catalog, as [transliteration, englishName, ayahCount]. The
-- Arabic names, which nothing computes with, are left out.
use Prim.Native.String.{String}
use livetich_api.Prelude.{ℕ, List, [], ◌∷◌}

pub record Row : Type 0 where
  pub transliteration : String
  pub english_name : String
  pub ayah_count : ℕ

abbrev row : String → String → ℕ → Row
row t e n = record { transliteration = t; english_name = e; ayah_count = n }

unfoldable pub raw : List Row
raw =
    row "Al-Fatihah" "The Opening" 7
    ∷ row "Al-Baqarah" "The Cow" 286
    ∷ row "Aal-E-Imran" "The Family of Imran" 200
    ∷ row "An-Nisa" "The Women" 176
    ∷ row "Al-Ma'idah" "The Table Spread" 120
    ∷ row "Al-An'am" "The Cattle" 165
    ∷ row "Al-A'raf" "The Heights" 206
    ∷ row "Al-Anfal" "The Spoils of War" 75
    ∷ row "At-Tawbah" "The Repentance" 129
    ∷ row "Yunus" "Jonah" 109
    ∷ row "Hud" "Hud" 123
    ∷ row "Yusuf" "Joseph" 111
    ∷ row "Ar-Ra'd" "The Thunder" 43
    ∷ row "Ibrahim" "Abraham" 52
    ∷ row "Al-Hijr" "The Rocky Tract" 99
    ∷ row "An-Nahl" "The Bee" 128
    ∷ row "Al-Isra" "The Night Journey" 111
    ∷ row "Al-Kahf" "The Cave" 110
    ∷ row "Maryam" "Mary" 98
    ∷ row "Ta-Ha" "Ta-Ha" 135
    ∷ row "Al-Anbiya" "The Prophets" 112
    ∷ row "Al-Hajj" "The Pilgrimage" 78
    ∷ row "Al-Mu'minun" "The Believers" 118
    ∷ row "An-Nur" "The Light" 64
    ∷ row "Al-Furqan" "The Criterion" 77
    ∷ row "Ash-Shu'ara" "The Poets" 227
    ∷ row "An-Naml" "The Ant" 93
    ∷ row "Al-Qasas" "The Stories" 88
    ∷ row "Al-Ankabut" "The Spider" 69
    ∷ row "Ar-Rum" "The Romans" 60
    ∷ row "Luqman" "Luqman" 34
    ∷ row "As-Sajdah" "The Prostration" 30
    ∷ row "Al-Ahzab" "The Combined Forces" 73
    ∷ row "Saba" "Sheba" 54
    ∷ row "Fatir" "Originator" 45
    ∷ row "Ya-Sin" "Ya-Sin" 83
    ∷ row "As-Saffat" "Those who set the Ranks" 182
    ∷ row "Sad" "The Letter Sad" 88
    ∷ row "Az-Zumar" "The Troops" 75
    ∷ row "Ghafir" "The Forgiver" 85
    ∷ row "Fussilat" "Explained in Detail" 54
    ∷ row "Ash-Shura" "The Consultation" 53
    ∷ row "Az-Zukhruf" "The Ornaments of Gold" 89
    ∷ row "Ad-Dukhan" "The Smoke" 59
    ∷ row "Al-Jathiyah" "The Crouching" 37
    ∷ row "Al-Ahqaf" "The Wind-Curved Sandhills" 35
    ∷ row "Muhammad" "Muhammad" 38
    ∷ row "Al-Fath" "The Victory" 29
    ∷ row "Al-Hujurat" "The Rooms" 18
    ∷ row "Qaf" "The Letter Qaf" 45
    ∷ row "Adh-Dhariyat" "The Winnowing Winds" 60
    ∷ row "At-Tur" "The Mount" 49
    ∷ row "An-Najm" "The Star" 62
    ∷ row "Al-Qamar" "The Moon" 55
    ∷ row "Ar-Rahman" "The Beneficent" 78
    ∷ row "Al-Waqi'ah" "The Inevitable" 96
    ∷ row "Al-Hadid" "The Iron" 29
    ∷ row "Al-Mujadila" "The Pleading Woman" 22
    ∷ row "Al-Hashr" "The Exile" 24
    ∷ row "Al-Mumtahanah" "She that is to be examined" 13
    ∷ row "As-Saff" "The Ranks" 14
    ∷ row "Al-Jumu'ah" "The Congregation, Friday" 11
    ∷ row "Al-Munafiqun" "The Hypocrites" 11
    ∷ row "At-Taghabun" "The Mutual Disillusion" 18
    ∷ row "At-Talaq" "The Divorce" 12
    ∷ row "At-Tahrim" "The Prohibition" 12
    ∷ row "Al-Mulk" "The Sovereignty" 30
    ∷ row "Al-Qalam" "The Pen" 52
    ∷ row "Al-Haqqah" "The Reality" 52
    ∷ row "Al-Ma'arij" "The Ascending Stairways" 44
    ∷ row "Nuh" "Noah" 28
    ∷ row "Al-Jinn" "The Jinn" 28
    ∷ row "Al-Muzzammil" "The Enshrouded One" 20
    ∷ row "Al-Muddaththir" "The Cloaked One" 56
    ∷ row "Al-Qiyamah" "The Resurrection" 40
    ∷ row "Al-Insan" "Man" 31
    ∷ row "Al-Mursalat" "The Emissaries" 50
    ∷ row "An-Naba" "The Tidings" 40
    ∷ row "An-Nazi'at" "Those who drag forth" 46
    ∷ row "Abasa" "He Frowned" 42
    ∷ row "At-Takwir" "The Overthrowing" 29
    ∷ row "Al-Infitar" "The Cleaving" 19
    ∷ row "Al-Mutaffifin" "The Defrauding" 36
    ∷ row "Al-Inshiqaq" "The Sundering" 25
    ∷ row "Al-Buruj" "The Mansions of the Stars" 22
    ∷ row "At-Tariq" "The Nightcomer" 17
    ∷ row "Al-A'la" "The Most High" 19
    ∷ row "Al-Ghashiyah" "The Overwhelming" 26
    ∷ row "Al-Fajr" "The Dawn" 30
    ∷ row "Al-Balad" "The City" 20
    ∷ row "Ash-Shams" "The Sun" 15
    ∷ row "Al-Layl" "The Night" 21
    ∷ row "Ad-Duha" "The Morning Hours" 11
    ∷ row "Ash-Sharh" "The Relief" 8
    ∷ row "At-Tin" "The Fig" 8
    ∷ row "Al-Alaq" "The Clot" 19
    ∷ row "Al-Qadr" "The Power" 5
    ∷ row "Al-Bayyinah" "The Clear Proof" 8
    ∷ row "Az-Zalzalah" "The Earthquake" 8
    ∷ row "Al-Adiyat" "The Courser" 11
    ∷ row "Al-Qari'ah" "The Calamity" 11
    ∷ row "At-Takathur" "The Rivalry in world increase" 8
    ∷ row "Al-Asr" "The Declining Day" 3
    ∷ row "Al-Humazah" "The Traducer" 9
    ∷ row "Al-Fil" "The Elephant" 5
    ∷ row "Quraysh" "Quraysh" 4
    ∷ row "Al-Ma'un" "The Small Kindnesses" 7
    ∷ row "Al-Kawthar" "The Abundance" 3
    ∷ row "Al-Kafirun" "The Disbelievers" 6
    ∷ row "An-Nasr" "The Divine Support" 3
    ∷ row "Al-Masad" "The Palm Fiber" 5
    ∷ row "Al-Ikhlas" "The Sincerity" 4
    ∷ row "Al-Falaq" "The Daybreak" 5
    ∷ row "An-Nas" "Mankind" 6
    ∷ []
